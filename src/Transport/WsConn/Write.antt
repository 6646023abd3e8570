-- ===== src/Transport/WsConn/Write.antt =====
-- internal/transport/wsconn.go: `Write` and `SetDeadline` of the adapter.
-- A call of `WriteMessage` succeeds or fails; one that fails completes no message.
pub mod RoundTrip
use g_tun.Prelude.{
  ℕ, Bytes, length, Bool, true, false, List, [], ◌∷◌, ◌++◌, if◌then◌else◌, ◌&&◌, ◌≡◌, refl,
}

-- `(n, err)` of a write.
pub record Written : Type 0 where
  pub count : ℕ
  pub failed : Bool

-- The messages that were sent, each binary or not.
abbrev pub Messages : Type 0
Messages = List (Bool × Bytes)

-- `succeeds` is the answer of `WriteMessage`, under the lock of `writeMu`.
unfoldable pub write : (succeeds : Bool) → Bytes → Messages → Written × Messages
write succeeds p sent =
    if succeeds
    then (record { count = length p; failed = false }, sent ++ ((true, p) ∷ []))
    else (record { count = 0; failed = true }, sent)

-- The two deadlines of the socket; an answer tells whether the call succeeds.
record Deadlines : Type 0 where
  pub read : Bool
  pub write : Bool

-- `true` is a deadline, and `false` none. The second deadline stays where the first cannot be set.
set_deadline : (on sets_read sets_write : Bool) → Deadlines → Bool × Deadlines
set_deadline on false sets_write d = (false, d)
set_deadline on true false d = (false, record d { read = on })
set_deadline on true true d = (true, record { read = on; write = on })

set_read_deadline : (on succeeds : Bool) → Deadlines → Bool × Deadlines
set_read_deadline on false d = (false, d)
set_read_deadline on true d = (true, record d { read = on })

set_write_deadline : (on succeeds : Bool) → Deadlines → Bool × Deadlines
set_write_deadline on false d = (false, d)
set_write_deadline on true d = (true, record d { write = on })

-- `SetDeadline` succeeds exactly if both deadlines can be set, and has then set both; where only the
-- first can be set, it has set that one.
set_deadline_lem :
    (on sets_read sets_write : Bool) (d : Deadlines)
    → ((set_deadline on sets_read sets_write d).0 ≡ (sets_read && sets_write))
      × ((set_deadline on sets_read sets_write d).1 ≡ (
          if sets_read
          then (set_write_deadline on sets_write (set_read_deadline on sets_read d).1).1
          else d))
unfolding set_deadline set_read_deadline set_write_deadline
set_deadline_lem on true true d = (refl, refl)
set_deadline_lem on true false d = (refl, refl)
set_deadline_lem on false true d = (refl, refl)
set_deadline_lem on false false d = (refl, refl)
