-- ===== src/Tracing/Context.antt =====
-- The encoding of the context of an access in native_tracing.c.
use fuzzware_emulator.Prelude.{ℕ, zero, suc, ◌/◌, ◌^◌, ◌<◌, ◌≡◌, arith, u32_mod}
use fuzzware_emulator.Tracing.{
  or_bits, encode_mmio_access_context, decode_mmio_access_context_pc,
  decode_mmio_access_context_addr,
}

or_bits-zero : (n a : ℕ) → a < 2 ^ n → or_bits n a 0 ≡ a
unfolding or_bits
or_bits-zero zero a small = omega (arith, small)
or_bits-zero (suc n) a small = ground (arith, or_bits-zero n (a / 2))

pub decode-encode :
    (pc addr : ℕ)
    → pc < u32_mod
    → addr < u32_mod
    → (decode_mmio_access_context_pc (encode_mmio_access_context pc addr) ≡ pc)
      × (decode_mmio_access_context_addr (encode_mmio_access_context pc addr) ≡ addr)
unfolding encode_mmio_access_context decode_mmio_access_context_pc decode_mmio_access_context_addr
decode-encode pc addr small_pc small_addr = ground (arith, or_bits-zero 32 pc small_pc)
