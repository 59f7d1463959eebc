-- ===== src/Sizes/Roundtrip.antt =====
-- `ParseSize` after `FormatSize`, of internal/lima/sizes.go.
use mathlib.Core.List.{append-nil, reverse, reverse-append, reverse-reverse}
use terraform_provider_lima.Base.{
  ◌≡◌, refl, sym, ap, is_low, codes-text_of, text_of, ◌∙◌, ℕ, ◌*◌, ◌^◌, ◌<◌, ℤ, pos, Bool, true,
  false, Option, some, List, [], ◌∷◌, ◌++◌, arith, length, all_of, codes, decimal,
}
use terraform_provider_lima.Instance.{is_space, trim_left, trim_space}
use terraform_provider_lima.Sizes.Float.{Float64, two_53, parse_float, scaled}
use terraform_provider_lima.Sizes.Parse.{
  is_digit, leading, after_leading, SizeMatch, match_whole, match_fraction, match_size, number_from,
  unit_named, parse_size, rounded, sized, with_unit, matched, to_int64,
}
use terraform_provider_lima.Sizes.{SizeUnit, tib, gib, mib, kib, bytes, unit_size, format_size}
use terraform_provider_lima.Sizes.Exact.{format_size_exact}
use terraform_provider_lima.Sizes.Written.{unit_text, format_size_text}
use terraform_provider_lima.Sizes.Digits.{decimal-IsWritten}
use terraform_provider_lima.Sizes.Whole.{parse_float_exact}

leading-append :
    (p : ℕ → Bool) (xs : List ℕ) (c : ℕ) (cs : List ℕ)
    → all_of p xs ≡ true
    → p c ≡ false
    → leading p (xs ++ c ∷ cs) ≡ xs
leading-append p [] c cs h e = rw e
leading-append p (x ∷ xs) c cs h e = ground (arith, leading-append p xs c cs)

after_leading-append :
    (p : ℕ → Bool) (xs : List ℕ) (c : ℕ) (cs : List ℕ)
    → all_of p xs ≡ true
    → p c ≡ false
    → after_leading p (xs ++ c ∷ cs) ≡ c ∷ cs
after_leading-append p [] c cs h e = rw e
after_leading-append p (x ∷ xs) c cs h e = ground (arith, after_leading-append p xs c cs)

match_at :
    (d : ℕ) (ds : List ℕ) (c : ℕ) (cs : List ℕ) (m : Option SizeMatch)
    → all_of is_digit (d ∷ ds) ≡ true
    → is_digit c ≡ false
    → match_fraction (d ∷ ds) (c ∷ cs) ≡ m
    → match_size ((d ∷ ds) ++ c ∷ cs) ≡ m
unfolding match_size
match_at d ds c cs m h e t =
    let s = (d ∷ ds) ++ c ∷ cs in
    ap (λ w. match_whole w (after_leading is_digit s)) (leading-append is_digit (d ∷ ds) c cs h e)
    ∙ ap (match_whole (d ∷ ds)) (after_leading-append is_digit (d ∷ ds) c cs h e)
    ∙ t

match_written :
    (d : ℕ) (ds : List ℕ) (u : SizeUnit)
    → all_of is_digit (d ∷ ds) ≡ true
    → match_size ((d ∷ ds) ++ codes (unit_text u))
      ≡ some (record { whole = d ∷ ds; fraction = []; unit_name = codes (unit_text u) })
match_written d ds tib h = match_at d ds _ _ _ h refl refl
match_written d ds gib h = match_at d ds _ _ _ h refl refl
match_written d ds mib h = match_at d ds _ _ _ h refl refl
match_written d ds kib h = match_at d ds _ _ _ h refl refl
match_written d ds bytes h = match_at d ds _ _ _ h refl refl

unit_named-unit_text : (u : SizeUnit) → unit_named (codes (unit_text u)) ≡ some (unit_size u)
unfolding unit_named
unit_named-unit_text tib = refl
unit_named-unit_text gib = refl
unit_named-unit_text mib = refl
unit_named-unit_text kib = refl
unit_named-unit_text bytes = refl

trim_left_kept : (c : ℕ) (cs : List ℕ) → is_space c ≡ false → trim_left (c ∷ cs) ≡ c ∷ cs
trim_left_kept c cs e = rw e

digit-not_space : (d : ℕ) → is_digit d ≡ true → is_space d ≡ false
digit-not_space d h = ground arith

ends_with_letter :
    (u : SizeUnit) (xs : List ℕ)
    → trim_left (reverse (codes (unit_text u)) ++ xs) ≡ reverse (codes (unit_text u)) ++ xs
ends_with_letter tib xs = refl
ends_with_letter gib xs = refl
ends_with_letter mib xs = refl
ends_with_letter kib xs = refl
ends_with_letter bytes xs = refl

-- A text that begins with a digit and ends with a letter is trimmed of nothing.
trim_written :
    (d : ℕ) (ds : List ℕ) (u : SizeUnit)
    → is_digit d ≡ true
    → trim_space ((d ∷ ds) ++ codes (unit_text u)) ≡ (d ∷ ds) ++ codes (unit_text u)
unfolding trim_space
trim_written d ds u h =
    let s = (d ∷ ds) ++ codes (unit_text u) in
    let backwards = reverse-append (d ∷ ds) (codes (unit_text u)) in
    ap (λ x. reverse (trim_left (reverse x)))
      (trim_left_kept d (ds ++ codes (unit_text u)) (digit-not_space d h))
    ∙ ap (λ x. reverse (trim_left x)) backwards
    ∙ ap reverse (ends_with_letter u (reverse (d ∷ ds)))
    ∙ ap reverse (sym backwards)
    ∙ reverse-reverse s

written_low :
    (d : ℕ) (ds : List ℕ) (u : SizeUnit)
    → all_of is_digit (d ∷ ds) ≡ true
    → is_low ((d ∷ ds) ++ codes (unit_text u)) ≡ true
written_low d ds u h = low (d ∷ ds) h ∙ unit_low u
  where
    low :
        (xs : List ℕ)
        → all_of is_digit xs ≡ true
        → is_low (xs ++ codes (unit_text u)) ≡ is_low (codes (unit_text u))
    low [] e = refl
    low (x ∷ xs) e = ground (arith, low xs)

    unit_low : (v : SizeUnit) → is_low (codes (unit_text v)) ≡ true
    unit_low tib = refl
    unit_low gib = refl
    unit_low mib = refl
    unit_low kib = refl
    unit_low bytes = refl

count_below : (n : ℕ) → n < two_53 → (format_size (pos n)).count < two_53
unfolding format_size
count_below n h = ground arith

module _ (wide_int : ℕ → ℤ) where
  sized_exact :
      (m : SizeMatch) (unit : ℕ) (f : Float64) (k : ℕ)
      → parse_float
          (number_from 0 (m.whole ++ m.fraction))
          (length (m.whole ++ m.fraction))
          (length m.fraction)
        ≡ some f
      → scaled f unit ≡ k
      → k < 2 ^ 63
      → sized wide_int m unit ≡ some (pos k)
  sized_exact m unit f k e v h =
      ap (λ x. rounded wide_int x unit) e ∙ ap (λ x. some (to_int64 wide_int x)) v ∙ in_int64 k h
    where
      in_int64 : (k : ℕ) → k < 2 ^ 63 → some (to_int64 wide_int k) ≡ some (pos k)
      in_int64 k h = ground arith

  digits_sized :
      (d : ℕ) (ds : List ℕ) (u : SizeUnit) (count : ℕ)
      → number_from 0 (d ∷ ds) ≡ count
      → count < two_53
      → count * unit_size u < 2 ^ 63
      → sized wide_int
          (record { whole = d ∷ ds; fraction = []; unit_name = codes (unit_text u) })
          (unit_size u)
        ≡ some (pos (count * unit_size u))
  digits_sized d ds u count e h b =
      let m : SizeMatch = record {
        whole = d ∷ ds;
        fraction = [];
        unit_name = codes (unit_text u);
      } in
      let (f, read, v) = parse_float_exact count (length ((d ∷ ds) ++ [])) (unit_size u) h in
      let all_read : number_from 0 ((d ∷ ds) ++ []) ≡ count =
        ap (number_from 0) (append-nil (d ∷ ds)) ∙ e in
      sized_exact m (unit_size u) f _
        (ap (λ x. parse_float x (length ((d ∷ ds) ++ [])) 0) all_read ∙ read) v b

  parse_written :
      (count : ℕ) (u : SizeUnit)
      → count < two_53
      → count * unit_size u < 2 ^ 63
      → parse_size wide_int (text_of (decimal count ++ codes (unit_text u)))
        ≡ some (pos (count * unit_size u))
  unfolding parse_size
  parse_written count u h b =
      let r = decimal-IsWritten count h in
      let s = (r.first ∷ r.others) ++ codes (unit_text u) in
      let first_digit : is_digit r.first ≡ true = ground (arith, r.digits) in
      let m : SizeMatch = record {
        whole = r.first ∷ r.others;
        fraction = [];
        unit_name = codes (unit_text u);
      } in
      ap (λ t. parse_size wide_int (text_of (t ++ codes (unit_text u)))) r.written
      ∙ ap (λ t. matched wide_int (match_size (trim_space t)))
          (codes-text_of s (written_low r.first r.others u r.digits))
      ∙ ap (λ t. matched wide_int (match_size t)) (trim_written r.first r.others u first_digit)
      ∙ ap (matched wide_int) (match_written r.first r.others u r.digits)
      ∙ ap (with_unit wide_int m) (unit_named-unit_text u)
      ∙ digits_sized r.first r.others u count r.number h b

-- ParseSize reads what FormatSize writes, for a size below 2 ^ 53.
pub parse_size-format_size_text :
    (wide_int : ℕ → ℤ) (n : ℕ)
    → n < two_53
    → parse_size wide_int (format_size_text (pos n)) ≡ some (pos n)
unfolding format_size_text
parse_size-format_size_text wide_int n h =
    let f = format_size (pos n) in
    let exact = format_size_exact n in
    parse_written wide_int f.count f.unit (count_below n h) (omega arith)
    ∙ ap (λ k. some (pos k)) exact
