-- ===== src/Netutil/Pipe.antt =====
-- internal/netutil/pipe.go: `Pipe` and its two halves `copyHalf`, interleaved.
-- A side is a Boolean: the half of a side writes to the end of that side and reads from the other.
-- `incoming` is what the peer of the other end still sends before it ends its stream. The loop of
-- io.CopyBuffer is a sequence of reads and writes.
mod Halves
pub mod Delivery
pub mod Progress
use g_tun.Prelude.{
  ℕ, suc, ◌*◌, ◌≤◌, ◌<◌, ◌≡◌, Bytes, Bool, true, false, not, [], ◌++◌, length, take, drop,
  if◌then◌else◌,
}

abbrev pub copy_buffer_size : ℕ
copy_buffer_size = 32 * 1024

pub record End : Type 0 where
  pub has_close_write : Bool
  pub write_shut : Bool
  pub closed : Bool

-- In the copy loop, behind it, and behind `copyHalf`.
pub data Stage : Type 0 where
  copying ended done : Stage

pub record Half : Type 0 where
  pub incoming : Bytes
  -- What was read and not written yet.
  pub pending : Bytes
  pub received : Bytes
  pub stage : Stage

pub record Pipe : Type 0 where
  pub halves : Bool → Half
  pub ends : Bool → End
  pub returned : Bool
  -- Errors of the network; an error that a closed end gives is none of these.
  pub faults : ℕ

abbrev pub set_side {ℓ} : {A : Type ℓ} → (Bool → A) → Bool → A → Bool → A
set_side f true v true = v
set_side f true v false = f false
set_side f false v true = f true
set_side f false v false = v

-- One read of the loop into the buffer, of `n` bytes, and the write of what was read.
unfoldable pub read_chunk : ℕ → Half → Half
read_chunk n c = record c { incoming = drop n c.incoming; pending = take n c.incoming }

unfoldable pub write_chunk : Half → Half
write_chunk c = record c { received = c.received ++ c.pending; pending = [] }

-- `CloseWrite` if the destination has it, and `Close` if not.
unfoldable pub finish_half : End → End
finish_half e =
    if e.has_close_write then record e { write_shut = true } else record e { closed = true }

abbrev pub shut_end : End → End
shut_end e = record e { closed = true }

abbrev pub with_half : Pipe → Bool → Half → Pipe
with_half p s c = record p { halves = set_side p.halves s c }

-- The next access of one half, or the end of `Pipe`.
pub data Step (p : Pipe) : Pipe → Type 0 where
  reads :
      (s : Bool) (n : ℕ)
      → (p.halves s).stage ≡ copying
      → (p.halves s).pending ≡ []
      → (p.ends (not s)).closed ≡ false
      → 0 < n
      → n ≤ copy_buffer_size
      → n ≤ length (p.halves s).incoming
      → Step p (with_half p s (read_chunk n (p.halves s)))
  writes :
      (s : Bool)
      → (p.halves s).stage ≡ copying
      → 0 < length (p.halves s).pending
      → (p.ends s).closed ≡ false
      → Step p (with_half p s (write_chunk (p.halves s)))
  -- io.EOF: the loop ends without an error.
  sees_eof :
      (s : Bool)
      → (p.halves s).stage ≡ copying
      → (p.halves s).pending ≡ []
      → (p.halves s).incoming ≡ []
      → (p.ends (not s)).closed ≡ false
      → Step p (with_half p s (record (p.halves s) { stage = ended }))
  -- A read from a closed end, and a write to one, is an error.
  read_fails :
      (s : Bool)
      → (p.halves s).stage ≡ copying
      → (p.halves s).pending ≡ []
      → (p.ends (not s)).closed ≡ true
      → Step p (with_half p s (record (p.halves s) { stage = ended }))
  write_fails :
      (s : Bool)
      → (p.halves s).stage ≡ copying
      → 0 < length (p.halves s).pending
      → (p.ends s).closed ≡ true
      → Step p (with_half p s (record (p.halves s) { stage = ended }))
  breaks :
      (s : Bool)
      → (p.halves s).stage ≡ copying
      → Step p
          (record (with_half p s (record (p.halves s) { stage = ended })) { faults = suc p.faults })
  finishes :
      (s : Bool)
      → (p.halves s).stage ≡ ended
      → Step p (record (with_half p s (record (p.halves s) { stage = done })) {
        ends = set_side p.ends s (finish_half (p.ends s));
      })
  -- Behind `<-done`: the deferred calls of `Close`.
  returns :
      (p.halves true).stage ≡ done
      → (p.halves false).stage ≡ done
      → p.returned ≡ false
      → Step p (record p { ends = λ s. shut_end (p.ends s); returned = true })

-- `sent s` is all that the half of side `s` can read.
abbrev start_half : Bytes → Half
start_half sent = record { incoming = sent; pending = []; received = []; stage = copying }

abbrev pub init : (Bool → Bytes) → (Bool → Bool) → Pipe
init sent close_write = record {
  halves = λ s. start_half (sent s);
  ends = λ s. record { has_close_write = close_write s; write_shut = false; closed = false };
  returned = false;
  faults = 0;
}

pub data Reach (sent : Bool → Bytes) (close_write : Bool → Bool) : Pipe → Type 0 where
  start : Reach sent close_write (init sent close_write)
  next : {p q : Pipe} → Reach sent close_write p → Step p q → Reach sent close_write q
