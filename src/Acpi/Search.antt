-- ===== src/Acpi/Search.antt =====
-- What the search finds: a table that another one lists, whose checks it has passed.
use native.Mathlib.Nat.{div-mul-le_self}
use pindos.Base.{
  ℕ, zero, suc, ◌+◌, ◌*◌, ◌/◌, ◌≤◌, ◌<◌, ◌≡◌, true, some, List, arith, ltb, ◌==◌, Bool-cases,
  Option-cases, inl, inr, ◌⊎◌, ◌∙◌,
}
use pindos.Acpi.{
  Bytes, Madt, RsdpInfo, read_u32, has_signature, madt_signature, rsdt_signature, xsdt_signature,
  read_rsdp, parse_madt, table_address, find_entry, find_madt_in_sdt, search_rsdt, from_rsdp,
}

-- The entries below the count lie in the table.
fits : (n size idx : ℕ) → idx < n / size → (idx + 1) * size ≤ n
fits n size idx h = grind (arith, h, div-mul-le_self n size)

module _ (memory : Bytes) where
  -- The table at an address, whose entries begin after its header and end where its length says.
  pub record IsMadt (a : ℕ) (madt : Madt) : Type 0 where
    pub signature : has_signature memory a madt_signature ≡ true
    pub start : madt.entries_ptr ≡ a + 44
    pub end : madt.entries_ptr + madt.entries_len ≡ a + read_u32 memory (a + 4)

  -- The table stands in the entry `idx` of the table of tables at `sdt`, within its length.
  pub record IsListed (sdt entry_size : ℕ) (expected_signature : List ℕ) (madt : Madt)
      : Type 0 where
    pub signature : has_signature memory sdt expected_signature ≡ true
    pub idx : ℕ
    pub inside : 36 + (idx + 1) * entry_size ≤ read_u32 memory (sdt + 4)
    pub is_madt : IsMadt (table_address memory entry_size (sdt + 36 + idx * entry_size)) madt

  parse_madt-IsMadt : (a : ℕ) (madt : Madt) → parse_madt memory a ≡ some madt → IsMadt a madt
  unfolding parse_madt
  parse_madt-IsMadt a madt h = record {
    signature = ground (arith, h);
    start = ground (arith, h);
    end = ground (arith, h);
  }

  find_entry_lem :
      (n entry_size a : ℕ) (madt : Madt)
      → find_entry memory n entry_size a ≡ some madt
      → (idx : ℕ) × (idx < n) × IsMadt (table_address memory entry_size (a + idx * entry_size)) madt
  unfolding find_entry
  find_entry_lem zero entry_size a madt h = absurd cc
  find_entry_lem (suc n) entry_size a madt h =
      elim (Option-cases (parse_madt memory (table_address memory entry_size a))) [
        | inr (found, e) ↦
            let same : parse_madt memory (table_address memory entry_size a) ≡ some madt =
              e ∙ (rw (e, find_entry) at h) in
            let here : a + 0 * entry_size ≡ a = omega arith in
            (
              0,
              omega arith,
              rw here (parse_madt-IsMadt (table_address memory entry_size a) madt same),
            )
        | inl e ↦
            let (idx, lt, is) =
              find_entry_lem n entry_size (a + entry_size) madt (rw (e, find_entry) at h) in
            let there : a + suc idx * entry_size ≡ a + entry_size + idx * entry_size =
              ground arith in
            (suc idx, omega arith, rw there is)
      ]

  find_madt_in_sdt-IsListed :
      (a entry_size : ℕ) (expected_signature : List ℕ) (madt : Madt)
      → 0 < entry_size
      → find_madt_in_sdt memory a entry_size expected_signature ≡ some madt
      → IsListed a entry_size expected_signature madt
  unfolding find_madt_in_sdt
  find_madt_in_sdt-IsListed a entry_size expected_signature madt pos h =
      elim (Bool-cases (has_signature memory a expected_signature)) [
        | inr other ↦ absurd (cc (rw (other, find_madt_in_sdt) at h))
        | inl signed ↦ elim (Bool-cases (ltb (read_u32 memory (a + 4)) 36)) [
          | inl short ↦ absurd (cc (rw (signed, find_madt_in_sdt, short) at h))
          | inr long ↦
              let (idx, lt, is) =
                find_entry_lem _ entry_size (a + 36) madt
                  (rw (signed, find_madt_in_sdt, long) at h) in
              record {
                signature = signed;
                idx = idx;
                inside = ground (arith, fits _ entry_size idx lt, long);
                is_madt = is;
              }
        ]
      ]

  search_rsdt-IsListed :
      (rsdp : RsdpInfo) (madt : Madt)
      → search_rsdt memory rsdp ≡ some madt
      → IsListed rsdp.rsdt_address 4 rsdt_signature madt
  unfolding search_rsdt
  search_rsdt-IsListed rsdp madt h = elim (Bool-cases (rsdp.rsdt_address == 0)) [
    | inl null ↦ absurd (cc (rw (null, search_rsdt) at h))
    | inr there ↦
        find_madt_in_sdt-IsListed rsdp.rsdt_address 4 rsdt_signature madt (omega arith)
          (rw (there, search_rsdt) at h)
  ]

  -- Where the table comes from: the root pointer is accepted, and the table stands in the list of
  -- 8-byte addresses that it names, or in the one of 4-byte addresses.
  abbrev pub IsReached : ℕ → Madt → Type 0
  IsReached a madt =
      (rsdp : RsdpInfo) × (read_rsdp memory a ≡ some rsdp)
      × (((xsdt : ℕ) × (rsdp.xsdt_address ≡ some xsdt) × IsListed xsdt 8 xsdt_signature madt)
          ⊎ IsListed rsdp.rsdt_address 4 rsdt_signature madt)

  -- A table that the search from a root pointer answers is reached from it: each table on the way has its
  -- signature, the entry that leads on lies within the length of its table, and the entries of the table
  -- that is found begin after its header and end where its length says.
  pub from_rsdp-IsReached :
      (a : ℕ) (madt : Madt) → from_rsdp memory a ≡ some madt → IsReached a madt
  unfolding from_rsdp
  from_rsdp-IsReached a madt h = elim (Option-cases (read_rsdp memory a)) [
    | inl refused ↦ absurd (cc (rw (refused, from_rsdp) at h))
    | inr (rsdp, e) ↦ elim (Option-cases rsdp.xsdt_address) [
      | inl older ↦ (rsdp, e, inr (search_rsdt-IsListed rsdp madt (rw (e, from_rsdp, older) at h)))
      | inr (xsdt, newer) ↦ elim (Option-cases (find_madt_in_sdt memory xsdt 8 xsdt_signature)) [
        | inl missing ↦
            (rsdp, e, inr (search_rsdt-IsListed rsdp madt (rw (e, from_rsdp, newer, missing) at h)))
        | inr (found, run) ↦
            let same : find_madt_in_sdt memory xsdt 8 xsdt_signature ≡ some madt =
              run ∙ (rw (e, from_rsdp, newer, run) at h) in
            (
              rsdp,
              e,
              inl (
                xsdt,
                newer,
                find_madt_in_sdt-IsListed xsdt 8 xsdt_signature madt (omega arith) same,
              ),
            )
      ]
    ]
  ]
