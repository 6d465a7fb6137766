-- ===== src/Publish/Cells.antt =====
-- A batch of publications, one for each cell (internal/analysis/aggregate.go and rank.go).
use forecastiq.Prelude.{
  ℕ, ◌+◌, ◌≡◌, refl, inl, inr, Bool, true, false, Option, none, some, List, [], ◌∷◌, ◌++◌, length,
  length-append, ok, arith, Bool-cases, Option-cases, sym, subst, ap, ◌∙◌,
}
use forecastiq.Publish.{
  Version, published, publish, live, at_key, CellRun, publish_cells, read_rows, all_rows,
}
use forecastiq.Publish.Keys.{has_key, Distinct}
use forecastiq.Publish.Live.{IsKeyed, published-published, publish-live}

module _ {K V : Type 0} (same_key : K → K → Bool) (key_of : V → K) where
  pub at_key-append :
      (k : K) (xs ys : List (Version V))
      → at_key same_key key_of k (xs ++ ys) ≡ elim (at_key same_key key_of k xs) [
        | none ↦ at_key same_key key_of k ys
        | some v ↦ some v
      ]
  unfolding at_key
  at_key-append k [] ys = refl
  at_key-append k (x ∷ xs) ys = ground (arith, at_key-append k xs ys)

module _ {C K V : Type 0} (same_key : K → K → Bool) (key_of : V → K) (run : C → CellRun V) where
  abbrev pub cell_rows : C → List (Version V)
  cell_rows cell = read_rows run (run cell).rows

  -- No key stands twice in the rows of the cells.
  abbrev pub IsApart : List C → Type 0
  IsApart [] = Unit {0}
  IsApart (cell ∷ cells) =
      IsKeyed same_key key_of (cell_rows cell)
      × ((k : K) (v : Version V)
          → at_key same_key key_of k (cell_rows cell) ≡ some v
          → at_key same_key key_of k (all_rows run cells) ≡ none)
      × IsApart cells

  module _ (passes : V → Bool) (sound : (a b : K) → same_key a b ≡ true → a ≡ b) where
    publish_cells-live :
        (cells : List C) (total n : ℕ) (t t' : List (Version V))
        → IsApart cells
        → publish_cells same_key key_of passes run cells total t ≡ (t', ok n)
        → (k : K)
        → live same_key key_of k t'
          ≡ published (at_key same_key key_of k (all_rows run cells)) (live same_key key_of k t)
    unfolding publish_cells all_rows at_key
    publish_cells-live [] total n t t' apart e k = ap (live same_key key_of k) (ground (arith, e))
    publish_cells-live (c ∷ cs) total n t t' (keyed, first, apart) e k =
        elim (Option-cases (run c).rows) [
          | inl q ↦ absurd (ground (arith, e, q))
          | inr (new, q) ↦
              let done = publish same_key key_of passes (run c).faults new t in
              elim (Bool-cases done.1) [
                | inr b ↦ absurd (ground (arith, e, q, b))
                | inl b ↦
                    let rest : publish_cells same_key key_of passes run cs (total + length new)
                          done.0
                        ≡ (t', ok n) =
                      ground (arith, e, q, b) in
                    let here : cell_rows c ≡ new = ap (read_rows run) q in
                    published-published (at_key same_key key_of k (cell_rows c))
                      (at_key same_key key_of k (all_rows run cs))
                      (at_key same_key key_of k (all_rows run (c ∷ cs))) _ _ _
                      (publish-live same_key key_of sound passes (run c).faults new t done.0 k
                          (subst (IsKeyed same_key key_of) here keyed)
                          (ap (λ (x : Bool). (done.0, x)) b)
                        ∙ ap
                            (λ (rows : List (Version V)).
                              published (at_key same_key key_of k rows) (live same_key key_of k t))
                            (sym here))
                      (publish_cells-live cs (total + length new) n done.0 t' apart rest k)
                      (at_key-append same_key key_of k (cell_rows c) (all_rows run cs)) (first k)
              ]
        ]

    publish_cells-count :
        (cells : List C) (total n : ℕ) (t t' : List (Version V))
        → publish_cells same_key key_of passes run cells total t ≡ (t', ok n)
        → n ≡ total + length (all_rows run cells)
    unfolding publish_cells all_rows
    publish_cells-count [] total n t t' e = ground (arith, e)
    publish_cells-count (c ∷ cs) total n t t' e = elim (Option-cases (run c).rows) [
      | inl q ↦ absurd (ground (arith, e, q))
      | inr (new, q) ↦
          let done = publish same_key key_of passes (run c).faults new t in
          elim (Bool-cases done.1) [
            | inr b ↦ absurd (ground (arith, e, q, b))
            | inl b ↦
                let rest : publish_cells same_key key_of passes run cs (total + length new) done.0
                    ≡ (t', ok n) =
                  ground (arith, e, q, b) in
                let same : length (cell_rows c) ≡ length new =
                  ap (λ (o : Option (List (Version V))). length (read_rows run o)) q in
                omega (
                  arith,
                  publish_cells-count cs (total + length new) n done.0 t' rest,
                  same,
                  length-append (cell_rows c) (all_rows run cs),
                )
          ]
    ]

    -- What a batch of cells does to the table, if it succeeds and no key stands twice in its rows.
    pub publish_cells-published :
        (cells : List C) (n : ℕ) (t t' : List (Version V))
        → IsApart cells
        → publish_cells same_key key_of passes run cells 0 t ≡ (t', ok n)
        → (n ≡ length (all_rows run cells))
          × ((k : K)
              → live same_key key_of k t'
                ≡ published
                    (at_key same_key key_of k (all_rows run cells))
                    (live same_key key_of k t))
    publish_cells-published cells n t t' apart e = (
      omega (arith, publish_cells-count cells 0 n t t' e),
      publish_cells-live cells 0 n t t' apart e,
    )

-- Cells whose rows carry the cell in their keys.
module _ {C K V : Type 0} (same_key : K → K → Bool) (key_of : V → K) (run : C → CellRun V)
    (same_cell : C → C → Bool) (cell_sound : (a b : C) → same_cell a b ≡ true → a ≡ b)
    (cell_of : K → C)
    (keyed : (cell : C) → IsKeyed same_key key_of (cell_rows same_key key_of run cell))
    (other : (k : K) (cell : C)
      → same_cell (cell_of k) cell ≡ false
      → at_key same_key key_of k (cell_rows same_key key_of run cell) ≡ none) where
  at_key-all_rows-other :
      (k : K) (cells : List C)
      → has_key same_cell (cell_of k) cells ≡ false
      → at_key same_key key_of k (all_rows run cells) ≡ none
  unfolding all_rows has_key at_key
  at_key-all_rows-other k [] h = refl
  at_key-all_rows-other k (c ∷ cs) h =
      at_key-append same_key key_of k (cell_rows same_key key_of run c) (all_rows run cs)
      ∙ ground
          (arith, other k c (ground (arith, h)), at_key-all_rows-other k cs (ground (arith, h)))

  at_key-all_rows-first :
      (cell : C) (cells : List C)
      → has_key same_cell cell cells ≡ false
      → (k : K) (v : Version V)
      → at_key same_key key_of k (cell_rows same_key key_of run cell) ≡ some v
      → at_key same_key key_of k (all_rows run cells) ≡ none
  at_key-all_rows-first cell cells apart k v found =
      elim (Bool-cases (same_cell (cell_of k) cell)) [
        | inl same ↦
            at_key-all_rows-other k cells
              (ap (λ (c : C). has_key same_cell c cells) (cell_sound (cell_of k) cell same) ∙ apart)
        | inr b ↦ absurd (ground (arith, found, other k cell b))
      ]

  pub Distinct-IsApart :
      (cells : List C) → Distinct same_cell cells → IsApart same_key key_of run cells
  Distinct-IsApart [] apart = tt
  Distinct-IsApart (c ∷ cs) (first, apart) =
      (keyed c, at_key-all_rows-first c cs first, Distinct-IsApart cs apart)
