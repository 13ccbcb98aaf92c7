-- ===== src/Response.antt =====
-- A response while it is built, and how it is sent: `SpyResponse` of sw/spyvspy/spy.h, with
-- `SendByte`, `SendWord` and `SendChunk` of `SpyTransport` in sw/spyvspy/spy.cpp. What a method sends is
-- the list of its bytes; the pauses between them are not modelled.
pub mod Chunk
use Prim.Native.Nat.{bit_and}
use yamashnik.Prelude.{
  ℕ, zero, suc, ◌-◌, ◌/◌, ◌^◌, List, [], ◌∷◌, ◌++◌, Option, none, some, Bytes, u8, u16, leb,
  if◌then◌else◌, length, get_elem?, set, take, replicate, Run, done, fault, ◌>>=◌,
}
use yamashnik.Fcb.{Fcb, fcb_size, to_bytes}
use yamashnik.Request.{Token, byte, word, fcb, dma, dma2}

-- The constructor leaves all but the three pointers uninitialised: such a place is `none`.
pub record Response : Type 0 where
  pub block : Option Fcb
  pub dma_buf : Option Bytes
  pub dmasize : Option ℕ
  pub dma2_buf : Option Bytes
  pub dma2size : Option ℕ
  pub aux : List (Option ℕ)
  pub txpattern : Option (List Token)

abbrev pub fresh_response : Response
fresh_response = record {
  block = none;
  dma_buf = none;
  dmasize = none;
  dma2_buf = none;
  dma2size = none;
  aux = replicate 8 none;
  txpattern = none;
}

unfoldable pub respond : List Token → Response → Response
respond pattern r = record r { txpattern = some pattern }

unfoldable pub assign_fcb : Fcb → Response → Response
assign_fcb f r = record r { block = some f }

-- `AllocDMA(length)`, with what is written into the new memory
unfoldable pub alloc_dma : Bytes → Response → Response
alloc_dma bs r = record r { dma_buf = some bs; dmasize = some (length bs) }

unfoldable pub set_dma_size : ℕ → Response → Response
set_dma_size n r = record r { dmasize = some n }

unfoldable pub assign_dma : Bytes → Response → Response
assign_dma bs r = record r { dma_buf = some bs; dmasize = some (length bs) }

unfoldable pub assign_dma2 : Bytes → Response → Response
assign_dma2 bs r = record r { dma2_buf = some bs; dma2size = some (length bs) }

unfoldable pub set_aux_data : ℕ → ℕ → Response → Response
set_aux_data idx value r = record r { aux = set r.aux idx (some value) }

-- `SendByte` and `SendWord`: the parameters are cut to eight and sixteen bits.
abbrev pub send_byte : ℕ → Bytes
send_byte b = u8 b ∷ []

unfoldable pub send_word : ℕ → Bytes
send_word w = send_byte (bit_and (u16 w / 2 ^ 8) 0xff) ++ send_byte (bit_and (u16 w) 0xff)

-- `SendChunk(data, length)`: a null pointer serves where nothing is sent, else all must be there.
unfoldable pub send_chunk : Option Bytes → ℕ → Run Bytes
send_chunk p zero = done []
send_chunk none (suc n) = fault
send_chunk (some bs) (suc n) = if leb (suc n) (length bs) then done (take (suc n) bs) else fault

abbrev or_fault {ℓ} : {A : Type ℓ} → Option A → Run A
or_fault none = fault
or_fault (some a) = done a

emit_sized : Option Bytes → Option ℕ → Run Bytes
emit_sized buf size = do n ← or_fault size; chunk ← send_chunk buf n; done (send_word n ++ chunk)

aux_at : Response → ℕ → Run ℕ
aux_at r i = do place ← or_fault (get_elem? r.aux i); or_fault place

-- The loop of `emit` from a place of the pattern on, with `datacursor`.
unfoldable pub emit_tokens : List Token → ℕ → Response → Run Bytes
unfolding emit_sized aux_at
emit_tokens [] cursor r = done []
emit_tokens (byte ∷ ts) cursor r = do
  v ← aux_at r cursor
  rest ← emit_tokens ts (suc cursor) r
  done (send_byte v ++ rest)
emit_tokens (word ∷ ts) cursor r = do
  v ← aux_at r cursor
  rest ← emit_tokens ts (suc cursor) r
  done (send_word v ++ rest)
emit_tokens (fcb ∷ ts) cursor r = do
  f ← or_fault r.block
  rest ← emit_tokens ts cursor r
  done (send_word (fcb_size - 8) ++ (take (fcb_size - 8) (to_bytes f) ++ rest))
emit_tokens (dma ∷ ts) cursor r = do
  part ← emit_sized r.dma_buf r.dmasize
  rest ← emit_tokens ts cursor r
  done (part ++ rest)
emit_tokens (dma2 ∷ ts) cursor r = do
  part ← emit_sized r.dma2_buf r.dma2size
  rest ← emit_tokens ts cursor r
  done (part ++ rest)

-- `emit`
unfoldable pub emit : Response → Run Bytes
emit r = do pattern ← or_fault r.txpattern; emit_tokens pattern 0 r

-- What a caller finds in a response: the result, the data and the block, where all have been set.
unfoldable pub reply : Response → Option (ℕ × Bytes × Fcb)
reply r = elim r.aux [
  | (some result) ∷ _ ↦ elim r.dma_buf [
    | none ↦ none
    | some bs ↦ elim r.block [ none ↦ none | some f ↦ some (result, bs, f) ]
  ]
  | _ ↦ none
]
