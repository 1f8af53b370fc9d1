-- ===== src/Receiver/Metadata.antt =====
-- What the operators in front of and behind the props do to the attributes of an entry, seen as
-- functions of their names.
use tarunner.Base.{
  ◌≡◌, refl, String, false, Option, none, inl, inr, Bool-cases, eq_iff, ◌==◌, ◌||◌, string_eq,
  if◌then◌else◌,
}
use mathlib.Core.Path.{subst}
use tarunner.Operator.Stanza.{moved, or_else}

abbrev Attributes : Type 0
Attributes = String → Option String

-- The source, the source type and the index stand under their names for Splunk only; all else,
-- the host too, is as before.
unfoldable pub renamed : Attributes → Attributes
renamed f k =
    if "com.splunk.source" == k
    then or_else (f "source") (f k)
    else if "com.splunk.sourcetype" == k
    then or_else (f "sourcetype") (f k)
    else if "com.splunk.index" == k
    then or_else (f "index") (f k)
    else if "source" == k || "sourcetype" == k || "index" == k
    then none
    else f k

-- The path of the file, if there is one, is the source.
unfoldable pub with_path : Attributes → Attributes
with_path f k =
    if "source" == k
    then or_else (f "log.file.path") (f k)
    else if "log.file.path" == k
    then none
    else f k

-- By the text that it is, or else by the test.
pub at_text {ℓ} :
    (P : String → Type ℓ) (text k : String) → P text → ((text == k) ≡ false → P k) → P k
at_text P text k here other = elim (Bool-cases (text == k)) [
  | inl same ↦ subst P ((eq_iff text k).0 same) here
  | inr different ↦ other different
]

abbrev all_moved : Attributes → Attributes
all_moved f =
    moved "index" "com.splunk.index"
      (moved "sourcetype" "com.splunk.sourcetype" (moved "source" "com.splunk.source" f))

pub moved-path : (f : Attributes) (k : String) → moved "log.file.path" "source" f k ≡ with_path f k
unfolding with_path moved
moved-path f k = refl

pub moved-metadata : (f : Attributes) (k : String) → all_moved f k ≡ renamed f k
unfolding renamed moved
moved-metadata f k = at_text P "com.splunk.source" k refl (λ n1.
    at_text P "com.splunk.sourcetype" k refl (λ n2. at_text P "com.splunk.index" k refl (λ n3.
      at_text P "source" k refl (λ n4.
        at_text P "sourcetype" k refl
          (λ n5. at_text P "index" k refl (λ n6. rw (n1, n2, n3, n4, n5, n6) refl))))))
  where
    P : String → Type 0
    P j = all_moved f j ≡ renamed f j
