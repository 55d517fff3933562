-- ===== src/Memory/PageTable/Leaves.antt =====
-- earth/cpu_mmu.c: the leaf table of a region, found or allocated.
use mathlib.Core.Bool.{false≢true}
use egos.Base.{
  ℕ, suc, ◌+◌, ◌*◌, ◌/◌, ◌%◌, ◌≤◌, ◌<◌, ◌≡◌, ◌≢◌, refl, sym, subst, ◌∙◌, true, false, ◌==◌,
  if◌then◌else◌, update, bit_or, arith, Bool-cases, ==_iff, inl, inr, some, ne→==, ==_refl,
}
use egos.Base.Bits.{bit_or-disjoint}
use egos.Memory.{page_size, frame, apps_pages_cnt}
use egos.Memory.PageTable.{Tables, word_at, set_word, find_leaf}
use egos.Memory.PageTable.Entries.{word_at_lem, set_word_lem}
use egos.Memory.PageTable.Identity.{FreeFrom, IsTables, Maps, allocated, new_table_lem, table_entry}

-- What the search for the leaf table of entry v leaves.
pub record Found (r v n : ℕ) (t t' : Tables) : Type 0 where
  pub tables : IsTables r t'
  pub free : FreeFrom (suc n) t'.mmu.pages
  pub q : ℕ
  pub lt : q < apps_pages_cnt
  pub apart : q ≢ r
  pub in_use : (t'.mmu.pages q).used ≡ true
  pub root : t'.mmu.memory (frame r) v ≡ table_entry q
  pub leaf_at : t'.leaf ≡ frame q * page_size
  pub keeps : (p : ℕ) → p / 1024 < 1024 → Maps r t p → Maps r t' p

-- The tables after a leaf table was allocated in page id.
abbrev with_leaf : ℕ → ℕ → ℕ → ℕ → Tables → Tables
with_leaf pid r v id t =
    let mmu = allocated pid id t.mmu in
    record t {
      leaf = frame id * page_size;
      mmu = record mmu {
        memory = update mmu.memory (frame r) (update (mmu.memory (frame r)) v (table_entry id));
      };
    }

module _ (pid v : ℕ) {r id : ℕ} {t : Tables} (s : IsTables r t)
    (unused : (t.mmu.pages id).used ≡ false) where
  id_apart : id ≢ r
  id_apart e = false≢true (sym (subst (λ k. (t.mmu.pages k).used ≡ false) e unused) ∙ s.root_used)

  -- The words of the root table, those of an older leaf table, and the pages in use.
  root_word :
      (u : ℕ)
      → (with_leaf pid r v id t).mmu.memory (frame r) u
        ≡ (if u == v then table_entry id else t.mmu.memory (frame r) u)
  root_word u = let other = ne→== r id (λ e. id_apart (sym e)) in ground arith

  leaf_word :
      (q w : ℕ)
      → q ≢ r
      → (t.mmu.pages q).used ≡ true
      → (with_leaf pid r v id t).mmu.memory (frame q) w ≡ t.mmu.memory (frame q) w
  leaf_word q w ne used =
      let new : q ≢ id =
        λ e. false≢true (sym unused ∙ subst (λ k. (t.mmu.pages k).used ≡ true) e used) in
      ground arith

  still_used :
      (q : ℕ) → (t.mmu.pages q).used ≡ true → ((with_leaf pid r v id t).mmu.pages q).used ≡ true
  still_used q used = ground arith

  old_or_new : (u : ℕ) → u < 1024 → t.mmu.memory (frame r) u ≡ table_entry id → ⊥
  old_or_new u lt e =
      let (q, lt', used, ne, e') = s.leaf_at u lt (omega (arith, e)) in
      let same : q ≡ id = omega (arith, e, e') in
      false≢true (sym unused ∙ subst (λ k. (t.mmu.pages k).used ≡ true) same used)

with_leaf-IsTables :
    (pid r v id : ℕ) (t : Tables)
    → IsTables r t
    → (t.mmu.pages id).used ≡ false
    → id < apps_pages_cnt
    → IsTables r (with_leaf pid r v id t)
with_leaf-IsTables pid r v id t s unused lt = record {
  root_at = s.root_at;
  root_lt = s.root_lt;
  root_used = still_used pid v s unused r s.root_used;
  leaf_at = λ u lt' odd. elim (Bool-cases (u == v)) [
    | inl here ↦
        (id, lt, ground arith, id_apart pid v s unused, root_word pid v s unused u ∙ rw here refl)
    | inr other ↦
        let old = root_word pid v s unused u ∙ rw other refl in
        let (q, lt'', used, ne, e) = s.leaf_at u lt' (rw old at odd) in
        (q, lt'', still_used pid v s unused q used, ne, old ∙ e)
  ];
  apart = λ u u' lt' lt'' odd e. ground (
    arith,
    root_word pid v s unused u,
    root_word pid v s unused u',
    old_or_new pid v s unused u lt',
    old_or_new pid v s unused u' lt'',
    s.apart u u' lt' lt'',
  );
}

entry_odd : (x q : ℕ) → x ≡ table_entry q → (x % 2 == 1) ≡ true
entry_odd x q e = ground arith

with_leaf-Found :
    (pid r v n id : ℕ) (t : Tables)
    → IsTables r t
    → FreeFrom n t.mmu.pages
    → id ≤ n
    → n < apps_pages_cnt
    → (t.mmu.pages id).used ≡ false
    → (t.mmu.memory (frame r) v % 2 == 1) ≡ false
    → Found r v n t (with_leaf pid r v id t)
with_leaf-Found pid r v n id t s free le lt unused even = record {
  tables = with_leaf-IsTables pid r v id t s unused (omega arith);
  free = λ j le' lt'. ground (arith, free j);
  q = id;
  lt = omega arith;
  apart = id_apart pid v s unused;
  in_use = ground arith;
  root = root_word pid v s unused v ∙ rw (==_refl v) refl;
  leaf_at = refl;
  keeps = λ p lt' m.
      let other : (p / 1024 == v) ≡ false = elim (Bool-cases (p / 1024 == v)) [
        | inl here ↦
            let same : p / 1024 ≡ v = (==_iff (p / 1024) v).0 here in
            let odd =
              subst (λ u. (t.mmu.memory (frame r) u % 2 == 1) ≡ true) same
                (entry_odd _ m.q m.root) in
            absurd (false≢true (sym even ∙ odd))
        | inr other ↦ other
      ] in
      record {
        q = m.q;
        lt = m.lt;
        apart = m.apart;
        in_use = still_used pid v s unused m.q m.in_use;
        root = root_word pid v s unused (p / 1024) ∙ rw other m.root;
        leaf = rw (leaf_word pid v s unused m.q (p % 1024) m.apart m.in_use) m.leaf;
      };
}

leaf_entry : (id : ℕ) → bit_or (frame id * page_size / 4) 1 ≡ table_entry id
leaf_entry id =
    let e : frame id * page_size / 4 ≡ frame id * 1024 = omega arith in
    rw e (bit_or-disjoint (frame id) 1 (omega arith))

-- The entry that refers to the new leaf table.
set_leaf :
    (pid r v id : ℕ) (t : Tables)
    → IsTables r t
    → v < 1024
    → set_word
        (allocated pid id t.mmu).memory
        (t.root + 4 * v)
        (bit_or (frame id * page_size / 4) 1)
      ≡ (with_leaf pid r v id t).mmu.memory
set_leaf pid r v id t s small =
    rw (s.root_at, leaf_entry id)
      (set_word_lem (allocated pid id t.mmu).memory (frame r) v (table_entry id) small)

kept_leaf-Found :
    (r v n q : ℕ) (t : Tables)
    → IsTables r t
    → FreeFrom n t.mmu.pages
    → q < apps_pages_cnt
    → (t.mmu.pages q).used ≡ true
    → q ≢ r
    → t.mmu.memory (frame r) v ≡ table_entry q
    → Found r v n t (record t { leaf = frame q * page_size })
kept_leaf-Found r v n q t s free lt used ne e = record {
  tables = record {
    root_at = s.root_at;
    root_lt = s.root_lt;
    root_used = s.root_used;
    leaf_at = s.leaf_at;
    apart = s.apart;
  };
  free = λ j le lt'. free j (omega arith) lt';
  q = q;
  lt = lt;
  apart = ne;
  in_use = used;
  root = e;
  leaf_at = refl;
  keeps = λ p lt' m. record {
    q = m.q;
    lt = m.lt;
    apart = m.apart;
    in_use = m.in_use;
    root = m.root;
    leaf = m.leaf;
  };
}

-- `find_leaf` finds the leaf table, or allocates it.
pub find_leaf-Found :
    (pid r v n : ℕ) (t : Tables)
    → IsTables r t
    → FreeFrom n t.mmu.pages
    → n < apps_pages_cnt
    → v < 1024
    → (t' : Tables) × (find_leaf pid v t ≡ some t') × Found r v n t t'
unfolding find_leaf
find_leaf-Found pid r v n t s free lt small =
    let at : word_at t.mmu.memory (t.root + 4 * v) ≡ t.mmu.memory (frame r) v =
      rw s.root_at (word_at_lem t.mmu.memory (frame r) v small) in
    elim (Bool-cases (t.mmu.memory (frame r) v % 2 == 1)) [
      | inl odd ↦
          let (q, lt', used, ne, e) = s.leaf_at v small ((==_iff _ 1).0 odd) in
          let place : t.mmu.memory (frame r) v * 4 % 4294967296 / page_size * page_size
              ≡ frame q * page_size =
            omega (arith, e) in
          rw (at, odd, place) (_, refl, kept_leaf-Found r v n q t s free lt' used ne e)
      | inr even ↦
          let (id, le, unused, gives) = new_table_lem pid n t.mmu free lt in
          rw (at, even, gives, set_leaf pid r v id t s small)
            (_, refl, with_leaf-Found pid r v n id t s free le lt unused even)
    ]
