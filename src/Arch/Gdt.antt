-- ===== src/Arch/Gdt.antt =====
-- hammam/src/arch/x86_64/gdt.rs: the table of segments.
-- A u64 is a number below 2 ^ 64: a shift to the left drops the bits above.
use pindos.Base.{
  ℕ, ◌+◌, ◌-◌, ◌*◌, ◌/◌, ◌%◌, ◌^◌, ◌<◌, ◌≡◌, refl, bit_and, bit_or, arith, ◌∙◌, ap, sym, update,
}
use pindos.Base.Bits.{bit_and_low, bit_or_add, bit_or_split_left, bit_or_zero_left}

pub record Tss : Type 0 where
  pub rsp0 : ℕ
  pub ist1 : ℕ
  pub iomap_base : ℕ

pub record Gdt : Type 0 where
  pub table : ℕ → ℕ
  pub tss : Tss

-- `x << k`
pub shl64 : ℕ → ℕ → ℕ
shl64 x k = x * 2 ^ k % 2 ^ 64

abbrev pub null_segment : ℕ
null_segment = 0

pub code_segment : ℕ → ℕ
code_segment dpl = let flags = bit_or 0xa09b (shl64 dpl 45) in bit_or (shl64 flags 40) 0xffff

pub data_segment : ℕ → ℕ
data_segment dpl = let flags = bit_or 0xa093 (shl64 dpl 45) in bit_or (shl64 flags 40) 0xffff

pub tss_low : ℕ → ℕ → ℕ
tss_low base limit =
    let base_low = bit_and base (2 ^ 24 - 1) in
    let base_high = bit_and (base / 2 ^ 24) 255 in
    bit_or (bit_or (bit_or (shl64 0x89 40) (bit_and limit (2 ^ 16 - 1))) (shl64 base_low 16))
      (shl64 (bit_and base_high 255) 56)

pub tss_high : ℕ → ℕ
tss_high base = bit_and (base / 2 ^ 32) (2 ^ 32 - 1)

abbrev pub tss_size : ℕ
tss_size = 104

-- `tss_ptr` and `int_stack_top` are the addresses of the task state and of the end of the interrupt
-- stack.
pub init : ℕ → ℕ → Gdt → Gdt
init tss_ptr int_stack_top g = record {
  table =
      update
        (update
          (update
            (update
              (update (update (update g.table 0 null_segment) 1 (code_segment 0)) 2
                (data_segment 0))
              3 (code_segment 3))
            4 (data_segment 3))
          5 (tss_low tss_ptr (tss_size - 1)))
        6 (tss_high tss_ptr);
  tss = record g.tss { iomap_base = tss_size; ist1 = int_stack_top };
}

pub set_kernel_stack : ℕ → Gdt → Gdt
set_kernel_stack rsp0 g = record g { tss = record g.tss { rsp0 = rsp0 } }

-- The fields as the processor reads them: the privilege level of a descriptor, and the base, limit and
-- type of a system descriptor of 16 bytes.
abbrev pub dpl_of : ℕ → ℕ
dpl_of d = d / 2 ^ 45 % 4

abbrev pub base_of : ℕ → ℕ → ℕ
base_of low high =
    low / 2 ^ 16 % 2 ^ 24 + 2 ^ 24 * (low / 2 ^ 56 % 2 ^ 8) + 2 ^ 32 * (high % 2 ^ 32)

abbrev pub limit_of : ℕ → ℕ
limit_of low = low % 2 ^ 16 + 2 ^ 16 * (low / 2 ^ 48 % 16)

abbrev pub access_of : ℕ → ℕ
access_of low = low / 2 ^ 40 % 256

-- A number below a multiple of a power.
bit_or_above : (k y r : ℕ) → r < 2 ^ k → bit_or r (y * 2 ^ k) ≡ y * 2 ^ k + r
bit_or_above k y r h =
    let e : 0 * 2 ^ k + r ≡ r = omega arith in
    ap (λ (x : ℕ). bit_or x (y * 2 ^ k)) (sym e)
    ∙ bit_or_split_left k 0 y r h
    ∙ ap (λ (x : ℕ). x * 2 ^ k + r) (bit_or_zero_left y)

shifted_out :
    (dpl flags : ℕ) → flags < 2 ^ 24 → shl64 (bit_or flags (shl64 dpl 45)) 40 ≡ flags * 2 ^ 40
unfolding shl64
shifted_out dpl flags h =
    let y : ℕ = dpl % 2 ^ 19 in
    let e : dpl * 2 ^ 45 % 2 ^ 64 ≡ y * 2 ^ 45 = omega arith in
    let sum : bit_or flags (dpl * 2 ^ 45 % 2 ^ 64) ≡ y * 2 ^ 45 + flags =
      ap (bit_or flags) e ∙ bit_or_above 45 y flags (omega (arith, h)) in
    omega (arith, sum, h)

tss_low_sum :
    (base limit : ℕ)
    → limit < 2 ^ 16
    → tss_low base limit
      ≡ limit + 2 ^ 16 * (base % 2 ^ 24) + 2 ^ 40 * 0x89 + 2 ^ 56 * (base / 2 ^ 24 % 256)
unfolding tss_low shl64
tss_low_sum base limit h =
    let bl : ℕ = base % 2 ^ 24 in
    let bh : ℕ = base / 2 ^ 24 % 256 in
    let low : bit_and limit (2 ^ 16 - 1) ≡ limit = omega (arith, bit_and_low 16 limit, h) in
    let middle : bit_and base (2 ^ 24 - 1) * 2 ^ 16 % 2 ^ 64 ≡ bl * 2 ^ 16 =
      omega (arith, bit_and_low 24 base) in
    let high : bit_and (bit_and (base / 2 ^ 24) 255) 255 * 2 ^ 56 % 2 ^ 64 ≡ bh * 2 ^ 56 =
      omega (arith, bit_and_low 8 (base / 2 ^ 24), bit_and_low 8 (bit_and (base / 2 ^ 24) 255)) in
    let one : bit_or (0x89 * 2 ^ 40) limit ≡ 0x89 * 2 ^ 24 * 2 ^ 16 + limit =
      bit_or_add 40 0x89 limit (omega (arith, h)) in
    let two : bit_or (0x89 * 2 ^ 24 * 2 ^ 16 + limit) (bl * 2 ^ 16)
        ≡ (0x89 * 2 ^ 24 + bl) * 2 ^ 16 + limit =
      bit_or_split_left 16 (0x89 * 2 ^ 24) bl limit h
      ∙ ap (λ (x : ℕ). x * 2 ^ 16 + limit) (bit_or_add 24 0x89 bl (omega arith)) in
    let three : bit_or ((0x89 * 2 ^ 24 + bl) * 2 ^ 16 + limit) (bh * 2 ^ 56)
        ≡ bh * 2 ^ 56 + ((0x89 * 2 ^ 24 + bl) * 2 ^ 16 + limit) =
      bit_or_above 56 bh _ (omega (arith, h)) in
    rw (low, middle, high, one, two, three) (omega arith)

tss_high_sum : (base : ℕ) → tss_high base ≡ base / 2 ^ 32 % 2 ^ 32
unfolding tss_high
tss_high_sum base = bit_and_low 32 (base / 2 ^ 32)

-- What `init` leaves in the table, as the processor reads it.
pub record Described (tss_ptr int_stack_top : ℕ) (g : Gdt) : Type 0 where
  pub no_segment : g.table 0 ≡ 0
  pub code_access : (access_of (g.table 1) ≡ 0x9b) × (access_of (g.table 3) ≡ 0x9b)
  pub data_access : (access_of (g.table 2) ≡ 0x93) × (access_of (g.table 4) ≡ 0x93)
  -- the segments of user code have the level of the kernel's
  pub kernel_level :
      (dpl_of (g.table 1) ≡ 0)
      × (dpl_of (g.table 2) ≡ 0)
      × (dpl_of (g.table 3) ≡ 0)
      × (dpl_of (g.table 4) ≡ 0)
  pub base : base_of (g.table 5) (g.table 6) ≡ tss_ptr
  pub limit : limit_of (g.table 5) ≡ 103
  pub access : access_of (g.table 5) ≡ 0x89
  pub stack : g.tss.ist1 ≡ int_stack_top

code_segment_sum : (dpl : ℕ) → code_segment dpl ≡ 0xa09b * 2 ^ 40 + 0xffff
unfolding code_segment
code_segment_sum dpl =
    let e : shl64 (bit_or 0xa09b (shl64 dpl 45)) 40 ≡ 0xa09b * 2 ^ 40 =
      shifted_out dpl 0xa09b (omega arith) in
    rw e (bit_or_add 40 0xa09b 0xffff (omega arith))

data_segment_sum : (dpl : ℕ) → data_segment dpl ≡ 0xa093 * 2 ^ 40 + 0xffff
unfolding data_segment
data_segment_sum dpl =
    let e : shl64 (bit_or 0xa093 (shl64 dpl 45)) 40 ≡ 0xa093 * 2 ^ 40 =
      shifted_out dpl 0xa093 (omega arith) in
    rw e (bit_or_add 40 0xa093 0xffff (omega arith))

-- `init` describes the segments and the task state: the processor reads back the address of the task
-- state and its last byte, 103. But the privilege level of every segment is 0, also of the two that
-- are made with level 3.
pub init-Described :
    (tss_ptr int_stack_top : ℕ) (g : Gdt)
    → tss_ptr < 2 ^ 64
    → Described tss_ptr int_stack_top (init tss_ptr int_stack_top g)
unfolding init
init-Described tss_ptr int_stack_top g h =
    let low : tss_low tss_ptr 103
        ≡ 103 + 2 ^ 16 * (tss_ptr % 2 ^ 24) + 2 ^ 40 * 0x89 + 2 ^ 56 * (tss_ptr / 2 ^ 24 % 256) =
      tss_low_sum tss_ptr 103 (omega arith) in
    record {
      no_segment = refl;
      code_access = (omega (arith, code_segment_sum 0), omega (arith, code_segment_sum 3));
      data_access = (omega (arith, data_segment_sum 0), omega (arith, data_segment_sum 3));
      kernel_level = (
        omega (arith, code_segment_sum 0),
        omega (arith, data_segment_sum 0),
        omega (arith, code_segment_sum 3),
        omega (arith, data_segment_sum 3),
      );
      base = omega (arith, low, tss_high_sum tss_ptr, h);
      limit = omega (arith, low);
      access = omega (arith, low);
      stack = refl;
    }
