-- ===== src/Base/ConcatMap.antt =====
-- Lists put together from the lists that a function makes.
use mathlib.Core.List.{append_assoc, map-append}
use tarunner.Base.{◌≡◌, refl, sym, ap, ◌∙◌, List, [], ◌∷◌, ◌++◌, map}

abbrev pub concat_map {ℓ κ} : {A : Type ℓ} {B : Type κ} → (A → List B) → List A → List B
concat_map g [] = []
concat_map g (x ∷ xs) = g x ++ concat_map g xs

pub concat_map-append {ℓ κ} :
    {A : Type ℓ} {B : Type κ} (g : A → List B) (before after : List A)
    → concat_map g (before ++ after) ≡ concat_map g before ++ concat_map g after
concat_map-append g [] after = refl
concat_map-append g (x ∷ before) after =
    ap (λ l. g x ++ l) (concat_map-append g before after)
    ∙ sym (append_assoc (g x) (concat_map g before) (concat_map g after))

pub map-concat_map {ℓ κ} :
    {A B : Type ℓ} {C : Type κ} (f : B → C) (g : A → List B) (h : A → List C)
    → ((x : A) → map f (g x) ≡ h x)
    → (xs : List A) → map f (concat_map g xs) ≡ concat_map h xs
map-concat_map f g h e [] = refl
map-concat_map f g h e (x ∷ xs) =
    map-append f (g x) (concat_map g xs) ∙ rw (e x, map-concat_map f g h e xs) refl
