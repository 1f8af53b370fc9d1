-- ===== src/Operator/Names.antt =====
-- The identifiers that are made of a name and a suffix.
use Prim.Native.String.{count}
use text.Mathlib.TextLemmas.{append_inj, append_assoc, append_cancel_right, length-append}
use tarunner.Base.{
  ◌≡◌, refl, sym, ap, ◌∙◌, ◌<◌, ◌+◌, String, ◌<>◌, false, Bool-cases, inl, inr, ◌==◌, string_eq,
  eq_iff, arith,
}

-- Texts with suffixes of one length are equal only if the suffixes are.
suffix_inj : (s s' t t' : String) → count t ≡ count t' → s <> t ≡ s' <> t' → t ≡ t'
suffix_inj s s' t t' h e =
    let total : count s + count t ≡ count s' + count t' =
      sym (length-append s t) ∙ ap count e ∙ length-append s' t' in
    (append_inj e (omega (arith, total, h))).1

pub ends_differ :
    (n pre pre' t t' : String)
    → count t ≡ count t'
    → (t == t') ≡ false
    → (n <> (pre <> t) == pre' <> t') ≡ false
ends_differ n pre pre' t t' h ne = elim (Bool-cases (n <> (pre <> t) == pre' <> t')) [
  | inl same ↦
      let e : (n <> pre) <> t ≡ pre' <> t' =
        append_assoc n pre t ∙ (eq_iff (n <> (pre <> t)) (pre' <> t')).0 same in
      cc ((eq_iff t t').1 (suffix_inj (n <> pre) pre' t t' h e))
  | inr differ ↦ differ
]

-- A text is no shorter than its suffix.
pub longer : (n t text : String) → count text < count t → (n <> t == text) ≡ false
longer n t text h = elim (Bool-cases (n <> t == text)) [
  | inl same ↦
      let total : count n + count t ≡ count text =
        sym (length-append n t) ∙ ap count ((eq_iff (n <> t) text).0 same) in
      absurd (omega (arith, total, h))
  | inr differ ↦ differ
]

pub same_suffix : (n m t : String) → (n == m) ≡ false → (n <> t == m <> t) ≡ false
same_suffix n m t ne = elim (Bool-cases (n <> t == m <> t)) [
  | inl same ↦ cc ((eq_iff n m).1 (append_cancel_right n m t ((eq_iff (n <> t) (m <> t)).0 same)))
  | inr differ ↦ differ
]

pub start_ne_end : (n m : String) → (n <> "-start" == m <> "-end") ≡ false
start_ne_end n m = ends_differ n "-s" m "tart" "-end" refl refl

pub flip : (a b : String) → (a == b) ≡ false → (b == a) ≡ false
flip a b h = ground (arith, h, eq_iff a b, eq_iff b a)

pub end_ne_start : (n m : String) → (n <> "-end" == m <> "-start") ≡ false
end_ne_start n m = flip (m <> "-start") (n <> "-end") (start_ne_end m n)

pub start_ne_copy : (n m : String) → (n <> "-start" == m <> "-copy") ≡ false
start_ne_copy n m = ends_differ n "-" m "start" "-copy" refl refl

pub copy_ne_end : (n m : String) → (n <> "-copy" == m <> "-end") ≡ false
copy_ne_end n m = ends_differ n "-" m "copy" "-end" refl refl
