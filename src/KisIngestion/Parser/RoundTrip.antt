-- ===== src/KisIngestion/Parser/RoundTrip.antt =====
-- What is put together in the documented format is read back.
use invest_view.Common.{
  ℕ, zero, suc, ◌+◌, ◌*◌, ◌≤◌, ◌≡◌, refl, true, false, ◌||◌, Option, none, some, List, [], ◌∷◌,
  ◌++◌, arith, ℤ, ◌==◌, All, length, length-append, drop, ap, ◌∙◌,
}
use invest_view.KisIngestion.Connection.{take, record_values, record_field_count}
use invest_view.KisIngestion.Parser.{
  Text, RawKisMessage, cut, split_max, prepend, split, is_one, of_parts, parse, split_records,
}

-- A text without the separator.
abbrev pub Free : ℕ → Text → Type 0
Free sep [] = Unit {0}
Free sep (c ∷ t) = ((c == sep) ≡ false) × Free sep t

-- `sep.join(texts)`
abbrev pub join : ℕ → List Text → Text
join sep [] = []
join sep (t ∷ []) = t
join sep (t ∷ u ∷ ts) = t ++ sep ∷ join sep (u ∷ ts)

cut-append : (sep : ℕ) (a t : Text) → Free sep a → cut sep (a ++ sep ∷ t) ≡ (a, some t)
unfolding cut
cut-append sep [] t h = ground arith
cut-append sep (c ∷ a) t h = ground (arith, cut-append sep a t h.1)

split_max-append :
    (sep n : ℕ) (a t : Text)
    → Free sep a
    → split_max sep (suc n) (a ++ sep ∷ t) ≡ a ∷ split_max sep n t
unfolding split_max
split_max-append sep n a t h = ground (arith, cut-append sep a t h)

split-Free : (sep : ℕ) (t : Text) → Free sep t → split sep t ≡ t ∷ []
unfolding split prepend
split-Free sep [] h = refl
split-Free sep (c ∷ t) h = ground (arith, split-Free sep t h.1)

split-append : (sep : ℕ) (a t : Text) → Free sep a → split sep (a ++ sep ∷ t) ≡ a ∷ split sep t
unfolding split prepend
split-append sep [] t h = ground arith
split-append sep (c ∷ a) t h = ground (arith, split-append sep a t h.1)

-- Splitting what was joined gives the texts.
pub split-join :
    (sep : ℕ) (t : Text) (ts : List Text)
    → All (Free sep) (t ∷ ts)
    → split sep (join sep (t ∷ ts)) ≡ t ∷ ts
split-join sep t [] h = split-Free sep t h.0
split-join sep t (u ∷ ts) h =
    split-append sep t (join sep (u ∷ ts)) h.0 ∙ ap (λ l. t ∷ l) (split-join sep u ts h.1)

abbrev pub concat : {A : Type 0} → List (List A) → List A
concat [] = []
concat (r ∷ rs) = r ++ concat rs

abbrev pub nth : {A : Type 0} → List A → ℕ → Option A
nth [] i = none
nth (x ∷ xs) zero = some x
nth (x ∷ xs) (suc i) = nth xs i

take-append : {A : Type 0} (n : ℕ) (a b : List A) → length a ≡ n → take n (a ++ b) ≡ a
take-append zero [] b h = refl
take-append zero (x ∷ a) b h = absurd (omega arith)
take-append (suc n) [] b h = absurd (omega arith)
take-append (suc n) (x ∷ a) b h = ap (λ l. x ∷ l) (take-append n a b (omega arith))

zero_add : (k : ℕ) → 0 + k ≡ k
zero_add k = omega arith

suc_add : (n k : ℕ) → suc n + k ≡ suc (n + k)
suc_add n k = omega arith

next_record : (i : ℕ) → suc i * record_field_count ≡ record_field_count + i * record_field_count
next_record i = omega arith

drop-append :
    {A : Type 0} (n k : ℕ) (a b : List A) → length a ≡ n → drop (n + k) (a ++ b) ≡ drop k b
drop-append zero k [] b h = rw (zero_add k) refl
drop-append zero k (x ∷ a) b h = absurd (omega arith)
drop-append (suc n) k [] b h = absurd (omega arith)
drop-append (suc n) k (x ∷ a) b h = rw (suc_add n k) (drop-append n k a b (omega arith))

-- A record of the right length is read from its place.
record_values-concat :
    {A : Type 0} (rs : List (List A)) (i : ℕ) (r : List A)
    → All (λ x. length x ≡ record_field_count) rs
    → nth rs i ≡ some r
    → record_values (concat rs) i ≡ r
record_values-concat [] i r h e = absurd cc
record_values-concat (x ∷ rs) zero r h e =
    take-append record_field_count x (concat rs) h.0 ∙ ground arith
record_values-concat (x ∷ rs) (suc i) r h e =
    ap (take record_field_count) (
      ap (λ m. drop m (x ++ concat rs)) (next_record i)
      ∙ drop-append record_field_count (i * record_field_count) x (concat rs) h.0)
    ∙ record_values-concat rs i r h.1 e

All-append : {A : Type 0} (P : A → Type 0) (xs ys : List A) → All P xs → All P ys → All P (xs ++ ys)
All-append P [] ys a b = b
All-append P (x ∷ xs) ys a b = (a.0, All-append P xs ys a.1 b)

All-concat : {A : Type 0} (P : A → Type 0) (rs : List (List A)) → All (All P) rs → All P (concat rs)
All-concat P [] h = tt
All-concat P (r ∷ rs) h = All-append P r (concat rs) h.0 (All-concat P rs h.1)

-- The documented format: encrypted|tr_id|count|payload, the payload's fields with ^ between them.
abbrev pub envelope : ℕ → Text → Text → List (List Text) → Text
envelope marker trid num rs = marker ∷ b'|' ∷ (trid ++ b'|' ∷ (num ++ b'|' ∷ join b'^' (concat rs)))

split-fields :
    (rs : List (List Text)) (r : List Text) (i : ℕ)
    → All (All (Free b'^')) rs
    → All (λ x. length x ≡ record_field_count) rs
    → nth rs i ≡ some r
    → split b'^' (join b'^' (concat rs)) ≡ concat rs
split-fields [] r i free h e = absurd cc
split-fields (x ∷ rs) r i free h e =
    whole (concat (x ∷ rs)) (All-concat (Free b'^') (x ∷ rs) free)
      (omega (arith, length-append x (concat rs), h.0))
  where
    whole : (xs : List Text) → All (Free b'^') xs → 1 ≤ length xs → split b'^' (join b'^' xs) ≡ xs
    whole [] a l = absurd (omega arith)
    whole (y ∷ ys) a l = split-join b'^' y ys a

envelope_parts :
    (marker : ℕ) (trid num payload : Text)
    → ((marker == b'|') ≡ false)
    → Free b'|' trid
    → Free b'|' num
    → split_max b'|' 3 (marker ∷ b'|' ∷ (trid ++ b'|' ∷ (num ++ b'|' ∷ payload)))
      ≡ (marker ∷ []) ∷ trid ∷ num ∷ payload ∷ []
unfolding split_max
envelope_parts marker trid num payload m ht hn =
    split_max-append b'|' 2 (marker ∷ []) _ (m, tt)
    ∙ ap (λ l. (marker ∷ []) ∷ l)
        (split_max-append b'|' 1 trid _ ht
          ∙ ap (λ l. trid ∷ l) (split_max-append b'|' 0 num payload hn))

parse_parts :
    (int_of : Text → Option ℤ) (c : ℕ) (raw : Text)
    → ((c == b'0') || (c == b'1')) ≡ true
    → parse int_of (c ∷ raw) ≡ of_parts int_of (split_max b'|' 3 (c ∷ raw))
unfolding parse
parse_parts int_of c raw h = rw h refl

four_parts :
    (int_of : Text → Option ℤ) (marker : ℕ) (trid num payload : Text) (n : ℤ)
    → int_of num ≡ some n
    → of_parts int_of ((marker ∷ []) ∷ trid ∷ num ∷ payload ∷ [])
      ≡ some (record { encrypted = marker == b'1'; tr_id = trid; count = n; payload = payload })
unfolding of_parts is_one
four_parts int_of marker trid num payload n h = ground (arith, h)

not_bar : (c : ℕ) → ((c == b'0') || (c == b'1')) ≡ true → (c == b'|') ≡ false
not_bar c h = ground arith

-- A message in the documented format, of records of 46 fields, is parsed into its parts, and the
-- place of a record in the split payload holds that record. No separator occurs in the parts that
-- it ends, and the count is a number to `int`.
pub parse-envelope :
    (int_of : Text → Option ℤ) (marker : ℕ) (trid num : Text) (n : ℤ) (rs : List (List Text))
    (i : ℕ) (r : List Text)
    → ((marker == b'0') || (marker == b'1')) ≡ true
    → Free b'|' trid
    → Free b'|' num
    → int_of num ≡ some n
    → All (All (Free b'^')) rs
    → All (λ x. length x ≡ record_field_count) rs
    → nth rs i ≡ some r
    → (m : RawKisMessage) × (parse int_of (envelope marker trid num rs) ≡ some m)
      × (m.encrypted ≡ (marker == b'1'))
      × (m.tr_id ≡ trid)
      × (m.count ≡ n)
      × (record_values (split_records m.payload) i ≡ r)
unfolding split_records
parse-envelope int_of marker trid num n rs i r mk ht hn hi free h e = (
  record { encrypted = marker == b'1'; tr_id = trid; count = n; payload = join b'^' (concat rs) },
  parse_parts int_of marker _ mk
      ∙ ap (of_parts int_of)
          (envelope_parts marker trid num (join b'^' (concat rs)) (not_bar marker mk) ht hn)
      ∙ four_parts int_of marker trid num (join b'^' (concat rs)) n hi,
  refl,
  refl,
  refl,
  rw (split-fields rs r i free h e) (record_values-concat rs i r h e),
)
