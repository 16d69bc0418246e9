-- ===== src/Tests/FakeHost.antt =====
-- A host whose programs print a line, and keys for new rows.
use edgekit.Base.{
  refl, none, arith, [], true, ltb, false, ◌≡◌, ◌+◌, if◌then◌else◌, ◌≤◌, ◌∷◌, member, List, ℕ,
}
use edgekit.System.Shell.{completed, Host}

abbrev pub quiet : Host
quiet = record {
  State = ℕ;
  start = λ argv input n. (completed 0 "out" "", n + 1);
  has = λ binary n. true;
  read = λ path n. none;
  write = λ path text n. n + 1;
  unlink = λ path n. n + 1;
  write_fails = λ _ _ _. false;
  unlink_fails = λ _ _. false;
}

-- One more than any key in use.
unfoldable pub next_id : List ℕ → ℕ
next_id [] = 1
next_id (i ∷ ids) = let rest = next_id ids in if ltb i rest then rest else i + 1

above-fresh : (n : ℕ) (ids : List ℕ) → next_id ids ≤ n → member n ids ≡ false
unfolding next_id
above-fresh n [] h = refl
above-fresh n (i ∷ ids) h = ground (arith, above-fresh n ids)

pub next_id-fresh : (ids : List ℕ) → member (next_id ids) ids ≡ false
next_id-fresh ids = above-fresh (next_id ids) ids (omega arith)
