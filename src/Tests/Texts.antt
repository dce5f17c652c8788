-- ===== src/Tests/Texts.antt =====
-- A small document type that keeps the `pycrdt` laws, where the last update wins, and a `difflib` that
-- replaces every line.
use cs455_project.Prelude.{
  ℕ, ◌+◌, Option, none, some, List, [], ◌∷◌, ◌++◌, length, take, drop, if◌then◌else◌, ◌≡◌, refl,
  inl, inr, Bool-cases, arith,
}
use cs455_project.Changes.{Differ, replacing, same_text}
use cs455_project.Changes.Lines.{IsDiffer, eq_of_same_text}
use cs455_project.Crdt.{Pycrdt, Op, inserted, deleted, doc_from_bytes, apply_update_counting}
use cs455_project.Crdt.Laws.{IsPycrdt}

abbrev pub whole_text : List ℕ → Option (List ℕ)
whole_text [] = none
whole_text (b ∷ text) = some text

abbrev pub changed_text : List ℕ → List ℕ → List Op
changed_text [] doc = []
changed_text (b ∷ text) doc =
    if same_text doc text then [] else deleted (length doc) ∷ inserted text ∷ []

abbrev pub toy : Pycrdt (List ℕ)
toy = record {
  blank = [];
  text = λ doc. doc;
  insert = λ at s doc. take at doc ++ (s ++ drop at doc);
  delete = λ start stop doc. take start doc ++ drop stop doc;
  get_state = λ doc. [];
  get_update = λ doc. 0 ∷ doc;
  get_update_since = λ state doc. 0 ∷ doc;
  apply_update = λ update doc. whole_text update;
  delta = changed_text;
}

empty_of : (s t : List ℕ) → length s + (length t + 0) ≡ 0 → t ≡ s
empty_of [] [] h = refl
empty_of (c ∷ s) t h = ground (arith, h)
empty_of [] (c ∷ t) h = ground (arith, h)

toy_quiet :
    (doc merged update : List ℕ)
    → apply_update_counting toy doc update ≡ some (merged, 0)
    → merged ≡ doc
unfolding apply_update_counting
toy_quiet doc merged [] h = ground (arith, h)
toy_quiet doc merged (b ∷ text) h = elim (Bool-cases (same_text doc text)) [
  | inl e ↦ ground (arith, e, h, eq_of_same_text doc text)
  | inr e ↦ ground (arith, e, h, empty_of doc text)
]

pub toy-IsPycrdt : IsPycrdt toy
unfolding doc_from_bytes
toy-IsPycrdt = record {
  text-insert = λ doc at s h. refl;
  text-delete = λ doc start stop h k. refl;
  copies = λ doc. (doc, refl, refl);
  converges = λ doc copy later h k. (later, refl, refl);
  quiet = toy_quiet;
  nonempty = λ doc h. ground (arith, h);
}

abbrev pub rewrite_lines : Differ
rewrite_lines a b = record { tag = replacing; i1 = 0; i2 = length a; j1 = 0; j2 = length b } ∷ []

pub rewrite_lines-IsDiffer : IsDiffer rewrite_lines
rewrite_lines-IsDiffer a b = (refl, refl, omega arith, omega arith, tt, (refl, refl))
