-- ===== src/Persistence/Snapshots/Numbers.antt =====
-- A document library to apply the theorems with: a document is a list of numbers, its heads their
-- count, and the changes after some heads are the numbers behind them.
use tryst_core_portfolio.Prelude.{
  ℕ, ◌≡◌, refl, sym, ap, ◌∙◌, List, [], ◌∷◌, ◌++◌, some, length, drop, arith, append_assoc,
  append-nil,
}
use tryst_core_portfolio.Persistence.Snapshots.{Crdt}
use tryst_core_portfolio.Persistence.Snapshots.Reload.{CrdtLaws}

abbrev pub numbers : Crdt (List ℕ) ℕ
numbers = record {
  load = λ bs. some bs;
  load_incremental = λ bs d. some (d ++ bs);
  save = λ d. d;
  save_after = λ n d. drop n d;
  get_heads = λ d. length d;
}

abbrev pub Longer : List ℕ → List ℕ → Type 0
Longer d e = (xs : List ℕ) × (e ≡ d ++ xs)

drop-length : (d xs : List ℕ) → drop (length d) (d ++ xs) ≡ xs
drop-length [] xs = refl
drop-length (x ∷ d) xs = drop-length d xs

numbers-load_changes : (d e : List ℕ) → Longer d e → some (d ++ drop (length d) e) ≡ some e
numbers-load_changes d e l = rw (l.1, drop-length d l.0) refl

numbers-no_changes : (d e : List ℕ) → Longer d e → drop (length d) e ≡ [] → d ≡ e
numbers-no_changes d e l h =
    sym (append-nil d)
    ∙ ap (◌++◌ d) (sym h ∙ ap (drop (length d)) l.1 ∙ drop-length d l.0)
    ∙ sym l.1

pub numbers_laws : CrdtLaws numbers Longer
numbers_laws = record {
  load_saved = λ d. refl;
  load_none = λ d. ap some (append-nil d);
  load_both = λ a b d e h. ground (arith, append_assoc d a b);
  load_changes = numbers-load_changes;
  no_changes = numbers-no_changes;
}
