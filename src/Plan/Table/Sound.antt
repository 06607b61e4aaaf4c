-- ===== src/Plan/Table/Sound.antt =====
-- The relocation tables of light-rocr/loader/load_plan_reader.cpp: reads, and what an accepted entry is.
use light_rocm_runtime.Prelude.{
  ℕ, ◌<◌, ◌≡◌, refl, true, false, ◌⊎◌, inl, inr, some, List, length, get_elem?, get_elem?-some,
  arith, ap, ◌∙◌, subst, sym, Bool-cases,
}
use light_rocm_runtime.Loader.{LoadSegment, done, Safe, >>=-Safe, >>=-done, done-injective}
use light_rocm_runtime.Plan.{Relocation}
use light_rocm_runtime.Plan.Table.{
  DynamicSymbol, is_known_amdgpu_relocation, relocation_uses_symbol, relocation_width, with_symbol,
  bind_symbol, check_entry, check_target, accept_relocation,
}
use light_rocm_runtime.Plan.Table.Addresses.{InMemory, virtual_address_in_memory_iff}

-- The symbol that a relocation got: a defined one of the table, absolute or in memory.
pub record IsBound (segments : List LoadSegment) (symbols : List DynamicSymbol) (r : Relocation)
    : Type 0 where
  pub symbol : DynamicSymbol
  pub in_table : get_elem? symbols r.symbol_index ≡ some symbol
  pub is_defined : symbol.defined ≡ true
  pub same_value : r.symbol_value ≡ symbol.value
  pub same_absolute : r.symbol_is_absolute ≡ symbol.absolute
  pub placed : (symbol.absolute ≡ true) ⊎ InMemory segments symbol.value 1

-- A relocation that can be applied.
pub record IsResolved (segments : List LoadSegment) (symbols : List DynamicSymbol) (r : Relocation)
    : Type 0 where
  pub known : is_known_amdgpu_relocation r.kind ≡ true
  pub index_in_bounds : r.symbol_index < length symbols
  pub bound : (relocation_uses_symbol r.kind ≡ false) ⊎ IsBound segments symbols r
  pub target :
      (relocation_width r.kind ≡ 0)
      ⊎ InMemory segments r.target_virtual_address (relocation_width r.kind)

module _ (segments : List LoadSegment) (symbols : List DynamicSymbol) where
  bind_symbol-Safe :
      (r : Relocation) (entry : ℕ)
      → r.symbol_index < length symbols
      → Safe (bind_symbol segments symbols r entry)
  unfolding bind_symbol
  bind_symbol-Safe r entry h =
      let (symbol, found) = get_elem?-some symbols r.symbol_index h in
      rw (found, bind_symbol) (ground arith)

  -- Binding changes the symbol's fields only.
  pub record Binds (r bound : Relocation) : Type 0 where
    pub same_encoding : bound.encoding ≡ r.encoding
    pub same_addend : bound.addend ≡ r.addend
    pub same_kind : bound.kind ≡ r.kind
    pub same_index : bound.symbol_index ≡ r.symbol_index
    pub same_target : bound.target_virtual_address ≡ r.target_virtual_address
    pub when_used : (relocation_uses_symbol bound.kind ≡ false) ⊎ IsBound segments symbols bound

  with_symbol-IsBound :
      (r bound : Relocation) (entry : ℕ) (symbol : DynamicSymbol)
      → get_elem? symbols r.symbol_index ≡ some symbol
      → with_symbol segments r entry symbol ≡ done bound
      → (bound ≡ record r { symbol_value = symbol.value; symbol_is_absolute = symbol.absolute })
        × IsBound segments symbols
            (record r { symbol_value = symbol.value; symbol_is_absolute = symbol.absolute })
  unfolding with_symbol
  with_symbol-IsBound r bound entry symbol found e = (
    ground arith,
    record {
      symbol = symbol;
      in_table = found;
      is_defined = ground arith;
      same_value = refl;
      same_absolute = refl;
      placed = ground (arith, (virtual_address_in_memory_iff segments symbol.value 1).0);
    },
  )

  bind_symbol-Binds :
      (r bound : Relocation) (entry : ℕ)
      → r.symbol_index < length symbols
      → bind_symbol segments symbols r entry ≡ done bound
      → Binds r bound
  unfolding bind_symbol
  bind_symbol-Binds r bound entry h e = elim (Bool-cases (relocation_uses_symbol r.kind)) [
    | inl uses ↦
        let (symbol, found) = get_elem?-some symbols r.symbol_index h in
        let (same, is_bound) =
          with_symbol-IsBound r bound entry symbol found (ground (arith, found)) in
        subst (Binds r) (sym same) (record {
          same_encoding = refl;
          same_addend = refl;
          same_kind = refl;
          same_index = refl;
          same_target = refl;
          when_used = inr is_bound;
        })
    | inr unused ↦
        let same : done r ≡ done bound = ground arith in
        subst (Binds r) (done-injective same) (record {
          same_encoding = refl;
          same_addend = refl;
          same_kind = refl;
          same_index = refl;
          same_target = refl;
          when_used = inl unused;
        })
  ]

  check_entry_lem :
      (relative_count index entry : ℕ) (r : Relocation)
      → check_entry symbols relative_count index entry r ≡ done tt
      → (is_known_amdgpu_relocation r.kind ≡ true)
        × (r.symbol_index < length symbols)
        × (index < relative_count → (r.kind ≡ 13) × (r.symbol_index ≡ 0))
  unfolding check_entry
  check_entry_lem relative_count index entry r e = ground arith

  check_target_lem :
      (entry : ℕ) (r : Relocation)
      → check_target segments entry r ≡ done tt
      → (relocation_width r.kind ≡ 0)
        ⊎ InMemory segments r.target_virtual_address (relocation_width r.kind)
  unfolding check_target
  check_target_lem entry r e = ground (
    arith,
    (virtual_address_in_memory_iff segments r.target_virtual_address (relocation_width r.kind)).0,
  )

  pub accept_relocation-Safe :
      (relative_count index entry : ℕ) (r : Relocation)
      → Safe (accept_relocation segments symbols relative_count index entry r)
  unfolding accept_relocation
  accept_relocation-Safe relative_count index entry r =
      >>=-Safe (check_entry symbols relative_count index entry r) _
        (unfold check_entry in ground arith)
        λ _ passed.
          >>=-Safe (bind_symbol segments symbols r entry) _
            (bind_symbol-Safe r entry (check_entry_lem relative_count index entry r passed).1)
            λ bound _. unfold check_target in ground arith

  pub accept_relocation-IsResolved :
      (relative_count index entry : ℕ) (r accepted : Relocation)
      → accept_relocation segments symbols relative_count index entry r ≡ done accepted
      → Binds r accepted
        × IsResolved segments symbols accepted
        × (index < relative_count → (accepted.kind ≡ 13) × (accepted.symbol_index ≡ 0))
  unfolding accept_relocation
  accept_relocation-IsResolved relative_count index entry r accepted e =
      let (_, passed, e1) = >>=-done (check_entry symbols relative_count index entry r) _ e in
      let (known, in_bounds, prefix) = check_entry_lem relative_count index entry r passed in
      let (bound, bind, e2) = >>=-done (bind_symbol segments symbols r entry) _ e1 in
      let (_, in_memory, e3) = >>=-done (check_target segments entry bound) _ e2 in
      let binds = bind_symbol-Binds r bound entry in_bounds bind in
      let target = check_target_lem entry bound in_memory in
      subst
        (λ a.
          Binds r a
          × IsResolved segments symbols a
          × (index < relative_count → (a.kind ≡ 13) × (a.symbol_index ≡ 0)))
        (done-injective e3)
        (
          binds,
          record {
            known = ap is_known_amdgpu_relocation binds.same_kind ∙ known;
            index_in_bounds = omega (arith, binds.same_index, in_bounds);
            bound = binds.when_used;
            target = target;
          },
          λ h. (binds.same_kind ∙ (prefix h).0, binds.same_index ∙ (prefix h).1),
        )
