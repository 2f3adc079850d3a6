-- ===== src/Prelude/Runs.antt =====
-- Results with the log of what was done for them, and their bind; a log is a list, oldest first.
use tryst_core_portfolio.Prelude.{List, [], ◌∷◌, ◌++◌, Result, ok, err}

-- A result, and what was done for it: calls, or printed characters.
abbrev pub Run : Type 0 → Type 0 → Type 0 → Type 0
Run C A E = Result A E × List C

infixl 5 ◌>>=◌
abbrev pub ◌>>=◌ : {C A B E : Type 0} → Run C A E → (A → Run C B E) → Run C B E
(err e, calls) >>= f = (err e, calls)
(ok a, calls) >>= f = let (result, more) = f a in (result, calls ++ more)

abbrev pub pure : {C A E : Type 0} → A → Run C A E
pure a = (ok a, [])

abbrev pub call : {C A E : Type 0} → C → Result A E → Run C A E
call c result = (result, c ∷ [])
