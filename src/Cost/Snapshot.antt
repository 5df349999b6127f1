-- ===== src/Cost/Snapshot.antt =====
-- AffinityMatrix.h and CostModel.h: what load gives back of what save wrote, and its failures.
use fatp_balancer.Base.{
  ℕ, zero, suc, ◌+◌, ◌*◌, ◌^◌, ◌<◌, ◌≡◌, refl, sym, ap, subst, ◌∙◌, inl, inr, true, ◌==◌, List, [],
  ◌∷◌, ◌++◌, map, some, length, get_elem?, length-append, ok, arith,
}
use fatp_balancer.Job.{u32}
use fatp_balancer.Floats.{Floats}
use fatp_balancer.Cost.Matrix.{AffinityMatrix}
use fatp_balancer.Cost.Json.{Json, JsonLaws, IsNumber, find_key}
use fatp_balancer.Cost.Persist.{
  PersistError, dimension_mismatch, row_cells, all_cells, save_matrix, read_float, read_count,
  parse_matrix, restored, load_arrays, load_matrix,
}

module _ {A : Type 0} where
  at : (xs : List A) {i j : ℕ} → i ≡ j → get_elem? xs i ≡ get_elem? xs j
  at xs e = ap (get_elem? xs) e

  column : (f : ℕ → ℕ → A) (r : ℕ) {i j : ℕ} → i ≡ j → some (f r i) ≡ some (f r j)
  column f r e = ap (λ k. some (f r k)) e

  row : (f : ℕ → ℕ → A) (c : ℕ) {i j : ℕ} → i ≡ j → some (f i c) ≡ some (f j c)
  row f c e = ap (λ k. some (f k c)) e

  get_elem?-append :
      (xs ys : List A) (i : ℕ) → get_elem? (xs ++ ys) (length xs + i) ≡ get_elem? ys i
  get_elem?-append [] ys i = at ys {i = 0 + i} {j = i} (omega arith)
  get_elem?-append (x ∷ xs) ys i =
      at (x ∷ xs ++ ys) {i = suc (length xs) + i} {j = suc (length xs + i)} (omega arith)
      ∙ get_elem?-append xs ys i

  get_elem?-append_left :
      (xs ys : List A) (i : ℕ) → i < length xs → get_elem? (xs ++ ys) i ≡ get_elem? xs i
  get_elem?-append_left [] ys i h = ground (arith, h)
  get_elem?-append_left (x ∷ xs) ys zero h = refl
  get_elem?-append_left (x ∷ xs) ys (suc i) h = get_elem?-append_left xs ys i (omega (arith, h))

  length-row_cells : (f : ℕ → ℕ → A) (r c n : ℕ) → length (row_cells f r c n) ≡ n
  unfolding row_cells
  length-row_cells f r c zero = refl
  length-row_cells f r c (suc n) = omega (arith, length-row_cells f r (suc c) n)

  length-all_cells : (f : ℕ → ℕ → A) (k r n : ℕ) → length (all_cells f k r n) ≡ n * k
  unfolding all_cells
  length-all_cells f k r zero = omega arith
  length-all_cells f k r (suc n) = omega (
    arith,
    length-append (row_cells f r 0 k) (all_cells f k (suc r) n),
    length-row_cells f r 0 k,
    length-all_cells f k (suc r) n,
  )

  get_elem?-row_cells :
      (f : ℕ → ℕ → A) (r c n i : ℕ) → i < n → get_elem? (row_cells f r c n) i ≡ some (f r (c + i))
  unfolding row_cells
  get_elem?-row_cells f r c zero i h = ground (arith, h)
  get_elem?-row_cells f r c (suc n) zero h = column f r (omega arith)
  get_elem?-row_cells f r c (suc n) (suc i) h =
      get_elem?-row_cells f r (suc c) n i (omega (arith, h)) ∙ column f r (omega arith)

  -- Row i, column c stands at i * k + c.
  pub get_elem?-all_cells :
      (f : ℕ → ℕ → A) (k r n i c : ℕ)
      → i < n
      → c < k
      → get_elem? (all_cells f k r n) (i * k + c) ≡ some (f (r + i) c)
  unfolding all_cells
  get_elem?-all_cells f k r zero i c h g = ground (arith, h)
  get_elem?-all_cells f k r (suc n) zero c h g =
      at (all_cells f k r (suc n)) (omega arith)
      ∙ get_elem?-append_left (row_cells f r 0 k) _ c (omega (arith, g, length-row_cells f r 0 k))
      ∙ get_elem?-row_cells f r 0 k c g
      ∙ column f r {i = 0 + c} {j = c} (omega arith)
      ∙ row f c {i = r} {j = r + 0} (omega arith)
  get_elem?-all_cells f k r (suc n) (suc i) c h g =
      at (all_cells f k r (suc n)) (omega (arith, length-row_cells f r 0 k))
      ∙ get_elem?-append (row_cells f r 0 k) (all_cells f k (suc r) n) (i * k + c)
      ∙ get_elem?-all_cells f k (suc r) n i c (omega (arith, h)) g
      ∙ row f c (omega arith)

map-row_cells :
    {A B : Type 0} (g : A → B) (f : ℕ → ℕ → A) (r c n : ℕ)
    → map g (row_cells f r c n) ≡ row_cells (λ i k. g (f i k)) r c n
unfolding row_cells
map-row_cells g f r c zero = refl
map-row_cells g f r c (suc n) = ap (λ xs. g (f r c) ∷ xs) (map-row_cells g f r (suc c) n)

map-append : {A B : Type 0} (g : A → B) (xs ys : List A) → map g (xs ++ ys) ≡ map g xs ++ map g ys
map-append g [] ys = refl
map-append g (x ∷ xs) ys = ap (λ zs. g x ∷ zs) (map-append g xs ys)

map-all_cells :
    {A B : Type 0} (g : A → B) (f : ℕ → ℕ → A) (k r n : ℕ)
    → map g (all_cells f k r n) ≡ all_cells (λ i c. g (f i c)) k r n
unfolding all_cells
map-all_cells g f k r zero = refl
map-all_cells g f k r (suc n) =
    map-append g (row_cells f r 0 k) (all_cells f k (suc r) n)
    ∙ ap (λ xs. xs ++ map g (all_cells f k (suc r) n)) (map-row_cells g f r 0 k)
    ∙ ap (λ ys. row_cells (λ i c. g (f i c)) r 0 k ++ ys) (map-all_cells g f k (suc r) n)

pub read_float-IsNumber :
    {J F : Type 0} ⦃fl : Floats F⦄ ⦃json : Json J F⦄ (y : F) (j : J) (x : F)
    → IsNumber json j x
    → read_float y (some j) ≡ x
unfolding read_float
read_float-IsNumber ⦃json⦄ y j x (inl (a, b)) = ground (arith, a, b)
read_float-IsNumber ⦃json⦄ y j x (inr (n, a, b)) = ground (arith, a, b)

pub read_count-int :
    {J F : Type 0} ⦃json : Json J F⦄ (ρ : J → J)
    → JsonLaws json ρ
    → (n k : ℕ) → read_count json n (some (ρ (json.int k))) ≡ u32 k
unfolding read_count
read_count-int ρ laws n k = ground (arith, laws.as_int-int k)

-- `ρ` is what becomes of a value: nothing, or its text is parsed.
module _ (J : Type 0) {F : Type 0} ⦃fl : Floats F⦄ ⦃json : Json J F⦄ (ρ : J → J)
    (laws : JsonLaws json ρ) where
  -- What is read of the cells that were written.
  unfoldable pub arrays : AffinityMatrix F → List J × List J
  arrays m = (
    all_cells (λ r k. ρ (json.double (m.values r k))) m.config.max_job_classes 0 m.config.max_nodes,
    all_cells (λ r k. ρ (json.int (m.observations r k))) m.config.max_job_classes 0
        m.config.max_nodes,
  )

  parse_matrix-save_matrix :
      (m : AffinityMatrix F) (e : PersistError)
      → m.config.max_nodes < 2 ^ 32
      → m.config.max_job_classes < 2 ^ 32
      → parse_matrix m.config e (ρ (save_matrix m)) ≡ ok (arrays m)
  unfolding parse_matrix save_matrix find_key arrays
  parse_matrix-save_matrix m e a b =
      let x : (u32 m.config.max_nodes == m.config.max_nodes) ≡ true = ground (arith, a) in
      let y : (u32 m.config.max_job_classes == m.config.max_job_classes) ≡ true =
        ground (arith, b) in
      let z : (m.config.max_nodes * m.config.max_job_classes
            == m.config.max_nodes * m.config.max_job_classes)
          ≡ true =
        ground arith in
      let v =
        map-all_cells ρ (λ r k. json.double (m.values r k)) m.config.max_job_classes 0
          m.config.max_nodes in
      let o =
        map-all_cells ρ (λ r k. json.int (m.observations r k)) m.config.max_job_classes 0
          m.config.max_nodes in
      simp (
        laws.as_object-object, laws.as_int-int, laws.as_array-array, x, y, z, v, o,
        length-all_cells,
      )

  pub load_matrix-restored :
      (m m' : AffinityMatrix F)
      → m.config.max_nodes < 2 ^ 32
      → m.config.max_job_classes < 2 ^ 32
      → m'.config ≡ m.config
      → load_matrix {J = J} m' (ρ (save_matrix m)) ≡ (restored m' (arrays m), true)
  unfolding load_matrix load_arrays arrays
  load_matrix-restored m m' a b e =
      ap (λ c. load_arrays m' (parse_matrix c dimension_mismatch (ρ (save_matrix {J = J} m)))) e
      ∙ ap (load_arrays m') (parse_matrix-save_matrix m dimension_mismatch a b)

  pub value-restored :
      (m m' : AffinityMatrix F) (r c : ℕ)
      → m'.config ≡ m.config
      → r < m.config.max_nodes
      → c < m.config.max_job_classes
      → (restored m' (arrays m)).values r c ≡ m.values r c
  unfolding restored arrays
  value-restored m m' r c e h k =
      let x : r < m'.config.max_nodes = subst (λ d. r < d.max_nodes) (sym e) h in
      let y : c < m'.config.max_job_classes = subst (λ d. c < d.max_job_classes) (sym e) k in
      let i : get_elem? (arrays m).0 (r * m'.config.max_job_classes + c)
          ≡ some (ρ (json.double (m.values r c))) =
        at (arrays m).0 (ap (λ d. r * d.max_job_classes + c) e)
        ∙ get_elem?-all_cells (λ r k. ρ (json.double (m.values r k))) _ 0 _ r c h k
        ∙ row (λ r k. ρ (json.double (m.values r k))) c {i = 0 + r} {j = r} (omega arith) in
      let n =
        read_float-IsNumber (fl.of_ℕ 1) (ρ (json.double (m.values r c))) (m.values r c)
          (laws.double-IsNumber (m.values r c)) in
      ground (arith, x, y, i, n)

  pub count-restored :
      (m m' : AffinityMatrix F) (r c : ℕ)
      → m'.config ≡ m.config
      → m.observations r c < 2 ^ 32
      → r < m.config.max_nodes
      → c < m.config.max_job_classes
      → (restored m' (arrays m)).observations r c ≡ m.observations r c
  unfolding restored arrays
  count-restored m m' r c e o h k =
      let x : r < m'.config.max_nodes = subst (λ d. r < d.max_nodes) (sym e) h in
      let y : c < m'.config.max_job_classes = subst (λ d. c < d.max_job_classes) (sym e) k in
      let i : get_elem? (arrays m).1 (r * m'.config.max_job_classes + c)
          ≡ some (ρ (json.int (m.observations r c))) =
        at (arrays m).1 (ap (λ d. r * d.max_job_classes + c) e)
        ∙ get_elem?-all_cells (λ r k. ρ (json.int (m.observations r k))) _ 0 _ r c h k
        ∙ row (λ r k. ρ (json.int (m.observations r k))) c {i = 0 + r} {j = r} (omega arith) in
      ground (arith, x, y, i, o, read_count-int ρ laws 0 (m.observations r c))

  -- Over JSON values that give back what was put in, or whose text does, a matrix with fewer than 2^32 rows and
  -- columns, loaded from what was saved of another of the same configuration, has each cell of the
  -- other whose count is below 2^32.
  pub load_matrix-save_matrix :
      (m m' : AffinityMatrix F) (r c : ℕ)
      → m.config.max_nodes < 2 ^ 32
      → m.config.max_job_classes < 2 ^ 32
      → m'.config ≡ m.config
      → m.observations r c < 2 ^ 32
      → r < m.config.max_nodes
      → c < m.config.max_job_classes
      → ((load_matrix {J = J} m' (ρ (save_matrix m))).1 ≡ true)
        × ((load_matrix {J = J} m' (ρ (save_matrix m))).0.values r c ≡ m.values r c)
        × ((load_matrix {J = J} m' (ρ (save_matrix m))).0.observations r c ≡ m.observations r c)
  load_matrix-save_matrix m m' r c a b e o h k =
      let l = load_matrix-restored m m' a b e in
      (
        ap (λ x. x.1) l,
        ap (λ x. x.0.values r c) l ∙ value-restored m m' r c e h k,
        ap (λ x. x.0.observations r c) l ∙ count-restored m m' r c e o h k,
      )
