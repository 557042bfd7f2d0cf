-- ===== src/Allocator/Once.antt =====
-- An address that is at most once on a stack or in the rows of a table, through the moves between
-- the two.
use kws.Prelude.{
  ℕ, ◌+◌, ◌≤◌, ◌≡◌, List, [], ◌∷◌, ◌++◌, arith, highest, occurrences, occurrences-append,
  occurrences_above, highest-none, Option-cases, ◌==◌, if◌then◌else◌, inl, inr,
}
use kws.Allocation.{next_ip}

-- The next address is in no row.
next_ip_fresh : (xs : List ℕ) → occurrences (next_ip (highest xs)) xs ≡ 0
next_ip_fresh xs = elim (Option-cases (highest xs)) [
  | inl e ↦ rw (highest-none xs e)
  | inr (m, e) ↦ rw e (occurrences_above (m + 1) m xs e (omega arith))
]

occurrences_added :
    (i ip : ℕ) (xs : List ℕ)
    → occurrences i (xs ++ ip ∷ []) ≡ occurrences i xs + occurrences i (ip ∷ [])
occurrences_added i ip xs = occurrences-append i xs (ip ∷ [])

-- At most once on the stack or in the rows.
abbrev pub Once : ℕ → List ℕ → List ℕ → Type 0
Once i stack rows = occurrences i stack + occurrences i rows ≤ 1

pub Once-same :
    (i : ℕ) (stack stack' rows rows' : List ℕ)
    → stack' ≡ stack
    → rows' ≡ rows
    → Once i stack rows
    → Once i stack' rows'
Once-same i stack stack' rows rows' p q h = rw (p, q) h

pub Once-lost :
    (i ip : ℕ) (stack stack' rows rows' : List ℕ)
    → stack ≡ ip ∷ stack'
    → rows' ≡ rows
    → Once i stack rows
    → Once i stack' rows'
Once-lost i ip stack stack' rows rows' p q h =
    let h' : Once i (ip ∷ stack') rows = rw p at h in rw q (ground arith)

pub Once-added :
    (i ip : ℕ) (stack stack' rows rows' : List ℕ)
    → stack ≡ ip ∷ stack'
    → rows' ≡ rows ++ ip ∷ []
    → Once i stack rows
    → Once i stack' rows'
Once-added i ip stack stack' rows rows' p q h =
    let h' : Once i (ip ∷ stack') rows = rw p at h in
    rw q (ground (arith, occurrences_added i ip rows))

pub Once-next :
    (i : ℕ) (stack stack' rows rows' : List ℕ)
    → stack ≡ []
    → stack' ≡ stack
    → rows' ≡ rows ++ next_ip (highest rows) ∷ []
    → Once i stack rows
    → Once i stack' rows'
Once-next i stack stack' rows rows' p p' q h =
    let h' : Once i [] rows = rw p at h in
    rw (q, p', p)
      (ground (arith, occurrences_added i (next_ip (highest rows)) rows, next_ip_fresh rows))

pub Once-pushed :
    (i ip : ℕ) (stack stack' rows rows' : List ℕ)
    → stack' ≡ ip ∷ stack
    → (if ip == i then 1 else 0) + occurrences i rows' ≤ occurrences i rows
    → Once i stack rows
    → Once i stack' rows'
Once-pushed i ip stack stack' rows rows' p q h = rw p (ground arith)

pub Once-dropped :
    (i ip : ℕ) (stack stack' rows rows' : List ℕ)
    → stack' ≡ stack
    → (if ip == i then 1 else 0) + occurrences i rows' ≤ occurrences i rows
    → Once i stack rows
    → Once i stack' rows'
Once-dropped i ip stack stack' rows rows' p q h = rw p (ground arith)

pub Once-rows :
    (i ip : ℕ) (rows before after : List ℕ)
    → after ≡ rows
    → (if ip == i then 1 else 0) + occurrences i rows ≤ occurrences i before
    → (if ip == i then 1 else 0) + occurrences i after ≤ occurrences i before
Once-rows i ip rows before after e h = rw e h
