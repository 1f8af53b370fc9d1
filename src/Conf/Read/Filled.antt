-- ===== src/Conf/Read/Filled.antt =====
-- The loop of the readers of internal/conf, against reading each section in turn.
use mathlib.Core.List.{append_assoc}
use tarunner.Base.{
  ℕ, suc, ◌-◌, ◌≡◌, refl, ap, ◌∙◌, true, false, some, List, [], ◌∷◌, ◌++◌, length, length-append,
  replicate, set-append_length, arith, All, inl, inr,
}
use tarunner.Base.Result.{Result, ok, err, Error, Result-cases}
use tarunner.Ini.{Section, is_default, HasDefaultFirst}
use tarunner.Conf.Read.{write, fill, read_all}

suc_sub_one : (n : ℕ) → suc n - 1 ≡ n
suc_sub_one n = omega arith

module _ {ℓ} {A : Type ℓ} (read : Section → Result A) where
  -- Every section read, in order, up to the first error.
  unfoldable pub read_each : List Section → Result (List A)
  read_each [] = ok []
  read_each (s ∷ sections) = elim (read s) [
    | err e ↦ err e
    | ok v ↦ elim (read_each sections) [ err e ↦ err e | ok vs ↦ ok (v ∷ vs) ]
  ]

  abbrev prepend : List A → Result (List A) → Result (List A)
  prepend done (err e) = err e
  prepend done (ok vs) = ok (done ++ vs)

  read_each-err :
      (s : Section) (sections : List Section) (e : Error)
      → read s ≡ err e
      → read_each (s ∷ sections) ≡ err e
  unfolding read_each
  read_each-err s sections e h = rw (h, read_each) refl

  pub read_each-ok :
      (s : Section) (sections : List Section) (v : A)
      → read s ≡ ok v
      → read_each (s ∷ sections) ≡ prepend (v ∷ []) (read_each sections)
  unfolding read_each
  read_each-ok s sections v h = rw (h, read_each) (after (read_each sections))
    where
      after :
          (r : Result (List A))
          → (elim r [ err e ↦ err e | ok vs ↦ ok (v ∷ vs) ]) ≡ prepend (v ∷ []) r
      after (err e) = refl
      after (ok vs) = refl

  prepend-cons :
      (done : List A) (v : A) (r : Result (List A))
      → some (prepend (done ++ v ∷ []) r) ≡ some (prepend done (prepend (v ∷ []) r))
  prepend-cons done v (err e) = refl
  prepend-cons done v (ok vs) = ap (λ xs. some (ok xs)) (append_assoc done (v ∷ []) vs)

  prepend-nil : (r : Result (List A)) → some (prepend [] r) ≡ some r
  prepend-nil (err e) = refl
  prepend-nil (ok vs) = refl

  write_next :
      (done : List A) (z : A) (n : ℕ) (v : A)
      → write (done ++ z ∷ replicate n z) (length done) v ≡ some (done ++ v ∷ replicate n z)
  unfolding write
  write_next done z n v =
      rw (set-append_length done z (replicate n z) v, length-append done (z ∷ replicate n z))
        (ground arith)

  skipped :
      (s : Section) (sections : List Section) (result : List A) (n : ℕ)
      → is_default s ≡ true
      → fill read (s ∷ sections) result n ≡ fill read sections result n
  unfolding fill
  skipped s sections result n h = rw (h, fill) refl

  fill-read_each :
      (sections : List Section) (done : List A) (z : A)
      → All (λ s. is_default s ≡ false) sections
      → fill read sections (done ++ replicate (length sections) z) (length done)
        ≡ some (prepend done (read_each sections))
  unfolding fill write read_each
  fill-read_each [] done z h = refl
  fill-read_each (s ∷ sections) done z (h, hs) = elim (Result-cases (read s)) [
    | inl (e, failed) ↦ rw (h, failed, read_each-err s sections e failed) refl
    | inr (v, found) ↦
        let next = fill-read_each sections (done ++ v ∷ []) z hs in
        rw (h, found, write_next done z (length sections) v, read_each-ok s sections v found)
          (rw
              (
                append_assoc done (v ∷ []) (replicate (length sections) z),
                length-append done (v ∷ []),
              )
              at next
            ∙ prepend-cons done v (read_each sections))
  ]

  -- On the sections of a loaded file, whose default section comes first and once, the loop never
  -- writes out of range, and gives every other section as it is read, in order, or the first error.
  pub read_all-read_each :
      (z : A) (sections : List Section) (d : HasDefaultFirst sections)
      → read_all z read sections ≡ some (read_each d.rest)
  unfolding read_all
  read_all-read_each z sections d = rw d.split (
      ap (λ n. fill read (d.default ∷ d.rest) (replicate n z) 0) (suc_sub_one (length d.rest))
      ∙ (skipped d.default d.rest _ 0 d.is_first
          ∙ (fill-read_each d.rest [] z d.once ∙ prepend-nil (read_each d.rest))))
