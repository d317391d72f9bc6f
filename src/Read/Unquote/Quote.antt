-- ===== src/Read/Unquote/Quote.antt =====
-- Text that is quoted for `find_char_unquote` is found again.
use mathlib.Core.List.{reverse, reverse_aux-eq}
use make.Read.Unquote.{backslashes, unquote_loop, find_char_unquote}
use make.Text.{Text}
use make.Prelude.{
  ℕ, zero, suc, ◌+◌, ◌-◌, ◌*◌, ◌/◌, ◌%◌, ◌≤◌, ◌≡◌, refl, sym, ap, ◌∙◌, Bool, true, false, ◌&&◌,
  ◌||◌, [], ◌∷◌, ◌++◌, append-nil, ◌==◌, ==_refl, if◌then◌else◌, drop, inl, inr, Bool-cases, arith,
}

-- Whether only backslashes stand before a stop character or the end.
unfoldable pub leads : ℕ → Text → Bool
leads stop [] = true
leads stop (c ∷ t) = let later = leads stop t in c == stop || (c == 92 && later)

-- The text with a backslash before each stop character, and before each backslash that would count
-- there.
unfoldable pub quote : ℕ → Text → Text
unfolding leads
quote stop [] = []
quote stop (c ∷ t) =
    let rest = quote stop t in
    if c == stop || (c == 92 && leads stop t) then 92 ∷ c ∷ rest else c ∷ rest

drop-backslashes :
    (n : ℕ) (seen : Text) → n ≤ backslashes seen → drop n (92 ∷ seen) ≡ 92 ∷ drop n seen
unfolding backslashes
drop-backslashes zero seen h = refl
drop-backslashes (suc n) [] h = absurd (omega arith)
drop-backslashes (suc n) (c ∷ seen) h = elim (Bool-cases (c == 92)) [
  | inl same ↦
      let c=92 : c ≡ 92 = ground arith in
      let more : suc n ≤ backslashes seen + 1 = rw same at h in
      rw c=92 (drop-backslashes n seen (omega arith))
  | inr other ↦ let none_left : suc n ≤ 0 = rw other at h in absurd (omega arith)
]

reverse-move : (c : ℕ) (seen t : Text) → reverse (c ∷ seen) ++ t ≡ reverse seen ++ (c ∷ t)
reverse-move c seen t = sym (reverse_aux-eq (c ∷ seen) t) ∙ reverse_aux-eq seen (c ∷ t)

pass_byte :
    (stop : ℕ) (seen : Text) (c : ℕ) (p : Text)
    → (c == stop) ≡ false
    → unquote_loop stop seen (c ∷ p) ≡ unquote_loop stop (c ∷ seen) p
unfolding unquote_loop
pass_byte stop seen c p e = rw e refl

pass_quoted :
    (stop : ℕ) (seen : Text) (c half : ℕ) (p : Text)
    → (c == stop) ≡ true
    → backslashes seen ≡ half * 2
    → unquote_loop stop (92 ∷ seen) (c ∷ p) ≡ unquote_loop stop (c ∷ drop half seen) p
unfolding unquote_loop backslashes
pass_quoted stop seen c half p e n =
    let odd : ((backslashes seen + 1) % 2 == 0) ≡ false = ground arith in
    let kept : backslashes seen + 1 - (backslashes seen + 1) / 2 ≡ suc half = omega arith in
    rw (e, odd, kept) refl

module _ (stop : ℕ) (not_backslash : (stop == 92) ≡ false) (tail : Text) where
  -- Before a run of backslashes that leads to a stop character, twice as many have been passed.
  quote-loop :
      (t seen : Text) (half : ℕ)
      → (leads stop t ≡ true → backslashes seen ≡ half * 2)
      → (leads stop t ≡ false → half ≡ 0)
      → unquote_loop stop seen (quote stop t ++ (stop ∷ tail))
        ≡ (reverse (drop half seen) ++ t, stop ∷ tail)
  unfolding unquote_loop quote leads backslashes
  quote-loop [] seen half even zero_half =
      let n = even refl in
      let is_even : (backslashes seen % 2 == 0) ≡ true = ground arith in
      let kept : backslashes seen - backslashes seen / 2 ≡ half = omega arith in
      rw (==_refl stop, is_even, kept)
        (ap (λ r. (r, stop ∷ tail)) (sym (append-nil (reverse (drop half seen)))))
  quote-loop (c ∷ t) seen half even zero_half = elim (Bool-cases (c == stop)) [
    | inl stops ↦
        let rest = quote stop t ++ (stop ∷ tail) in
        let n = even (rw stops refl) in
        let byte : (c == 92) ≡ false = ground arith in
        let ih = quote-loop t (c ∷ drop half seen) 0 (λ l. rw byte refl) (λ l. refl) in
        rw stops (
          pass_byte stop seen 92 (c ∷ rest) (ground arith)
          ∙ pass_quoted stop seen c half rest stops n
          ∙ ih
          ∙ ap (λ r. (r, stop ∷ tail)) (reverse-move c (drop half seen) t))
    | inr goes ↦ elim (Bool-cases (c == 92 && leads stop t)) [
      | inl leading ↦
          let rest = quote stop t ++ (stop ∷ tail) in
          let n = even (rw (goes, leading) refl) in
          let c=92 : c ≡ 92 = ground arith in
          let ahead : leads stop t ≡ true = ground arith in
          let ih = quote-loop t (92 ∷ 92 ∷ seen) (suc half) (λ l. omega arith) (λ l. absurd cc) in
          rw (goes, leading, c=92)
            (pass_byte stop seen 92 (92 ∷ rest) (ground arith)
              ∙ pass_byte stop (92 ∷ seen) 92 rest (ground arith)
              ∙ ih
              ∙ ap (λ r. (reverse r ++ t, stop ∷ tail)) (drop-backslashes half seen (omega arith))
              ∙ ap (λ r. (r, stop ∷ tail)) (reverse-move 92 (drop half seen) t))
      | inr plain ↦
          let rest = quote stop t ++ (stop ∷ tail) in
          let none_passed : half ≡ 0 = zero_half (rw (goes, plain) refl) in
          let ih =
            quote-loop t (c ∷ seen) 0
              (λ l. let byte : (c == 92) ≡ false = ground arith in rw byte refl) (λ l. refl) in
          rw (goes, plain, none_passed)
            (pass_byte stop seen c rest goes
              ∙ ih
              ∙ ap (λ r. (r, stop ∷ tail)) (reverse-move c seen t))
    ]
  ]

-- Quoting is undone: in a text that is quoted and followed by the stop character, the stop
-- character is found behind the text as it was before quoting, whatever follows. The stop character
-- is no backslash.
pub find_char_unquote-quote :
    (stop : ℕ) (t tail : Text)
    → (stop == 92) ≡ false
    → find_char_unquote stop (quote stop t ++ (stop ∷ tail)) ≡ (t, stop ∷ tail)
unfolding find_char_unquote backslashes
find_char_unquote-quote stop t tail h = quote-loop stop h tail t [] 0 (λ l. refl) (λ l. refl)
