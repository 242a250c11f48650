-- ===== src/Prefs/Quote.antt =====
-- Quoted values are read back.
use blitzmail.Common.{ℕ, ◌≡◌, refl, ap, ◌∙◌, arith, Bytes, false, [], ◌∷◌, ◌++◌, some}
use blitzmail.Prefs.{doubled, quote, without_last, inner, undoubled, unquote}

without_last-append : (s : Bytes) (c : ℕ) → without_last (s ++ c ∷ []) ≡ s
unfolding without_last
without_last-append [] c = refl
without_last-append (d ∷ []) c = refl
without_last-append (d ∷ e ∷ s) c = ap (λ t. d ∷ t) (without_last-append (e ∷ s) c)

undoubled-doubled : (s : Bytes) → undoubled false (doubled s) ≡ s
unfolding undoubled doubled
undoubled-doubled [] = refl
undoubled-doubled (c ∷ s) = ground (arith, undoubled-doubled s)

-- A value that was quoted for the server is read back as it was, whatever marks stand in it.
pub unquote-quote : (s : Bytes) → unquote (some (quote s)) ≡ some s
unfolding unquote quote inner
unquote-quote s =
    ap some (ap (undoubled false) (without_last-append (doubled s) b'"') ∙ undoubled-doubled s)
