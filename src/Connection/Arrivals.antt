-- ===== src/Connection/Arrivals.antt =====
-- What `Connection::HandleRead` does with what arrives before it has to wait or the stream ends.
use network_lirbary.Common.{
  ℕ, zero, suc, ◌<◌, ◌≡◌, ◌∙◌, Bool, true, List, [], ◌∷◌, some, length, Bytes, arith,
}
use network_lirbary.Memory.Buffer.{Buffer, append}
use network_lirbary.Connection.Sockets.{Io, ReadResult, got, end_of_file}
use network_lirbary.Connection.{
  Connection, connected, handle_read, handle_read_in, read_open, read_loop, after_read,
  handle_close,
}

abbrev pub append_all : Buffer → List Bytes → Buffer
append_all b [] = b
append_all b (bs ∷ bss) = append_all (append b bs) bss

-- How a round of reads ends, without an error.
pub data Ending : Type 0 where
  waits finished : Ending

abbrev pub ending_read : Ending → ReadResult
ending_read waits = ReadResult.retry
ending_read finished = end_of_file

abbrev pub ended : {World : Type 0} → Ending → Connection World → Connection World
ended waits c = c
ended finished c = handle_close c

module _ (io : Io) where
  open io use {World, read, allow_read}

  -- The reads give these pieces and then the ending.
  abbrev pub Arrive : List Bytes → Ending → Bool → World → World → Type 0
  Arrive [] end ssl w w' = read ssl w ≡ (ending_read end, w')
  Arrive (bs ∷ bss) end ssl w w' =
      (w1 : World) × (read ssl w ≡ (got bs, w1)) × Arrive bss end ssl w1 w'

  -- The open connection with the pieces in its input buffer.
  abbrev pub filled : Connection World → List Bytes → World → Connection World
  filled c bss w = record c { state = connected; input = append_all c.input bss; world = w }

  step_end :
      (end : Ending) (fuel : ℕ) (c : Connection World) (w' : World)
      → read c.ssl c.world ≡ (ending_read end, w')
      → read_loop io (λ d. d) (suc fuel) (record c { state = connected })
        ≡ some (ended end (filled c [] w'))
  unfolding read_loop after_read
  step_end waits fuel c w' r = rw r
  step_end finished fuel c w' r = rw r

  step_more :
      (fuel : ℕ) (c : Connection World) (bs : Bytes) (w1 : World)
      → read c.ssl c.world ≡ (got bs, w1)
      → read_loop io (λ d. d) (suc fuel) (record c { state = connected })
        ≡ read_loop io (λ d. d) fuel (filled c (bs ∷ []) w1)
  unfolding read_loop after_read
  step_more fuel c bs w1 r = rw r

  read_loop-arrivals :
      (end : Ending) (fuel : ℕ) (c : Connection World) (bss : List Bytes) (w' : World)
      → Arrive bss end c.ssl c.world w'
      → length bss < fuel
      → read_loop io (λ d. d) fuel (record c { state = connected })
        ≡ some (ended end (filled c bss w'))
  read_loop-arrivals end zero c bss w' a room = absurd (omega arith)
  read_loop-arrivals end (suc fuel) c [] w' a room = step_end end fuel c w' a
  read_loop-arrivals end (suc fuel) c (bs ∷ bss) w' (w1, r, a) room =
      step_more fuel c bs w1 r
      ∙ read_loop-arrivals end fuel (filled c (bs ∷ []) w1) bss w' a (omega arith)

  -- `HandleRead` of an open connection appends all that arrives, in order; then it returns, or
  -- closes the connection where the stream ends.
  pub handle_read-arrivals :
      (end : Ending) (fuel : ℕ) (c : Connection World) (bss : List Bytes) (w w' : World)
      → allow_read c.world ≡ (true, w)
      → Arrive bss end c.ssl w w'
      → length bss < fuel
      → handle_read io (λ d. d) fuel (record c { state = connected })
        ≡ some (ended end (filled c bss w'))
  unfolding handle_read handle_read_in read_open
  handle_read-arrivals end fuel c bss w w' allowed a room =
      rw allowed (read_loop-arrivals end fuel (record c { world = w }) bss w' a room)
