-- ===== src/Netutil/Pipe/Halves.antt =====
-- internal/netutil/pipe.go: the stream of one half, and the change of one side.
use g_tun.Prelude.{
  ℕ, ◌≡◌, refl, sym, ap, ◌∙◌, Bytes, Bool, true, false, ◌⊎◌, [], ◌++◌, append_assoc,
  take-append-drop, arith,
}
use g_tun.Netutil.Pipe.{End, copying, done, Half, read_chunk, write_chunk, finish_half, set_side}

-- The bytes of a half, in the order of the stream.
abbrev pub stream : Half → Bytes
stream c = c.received ++ (c.pending ++ c.incoming)

-- What holds of the new value and of all the old ones holds of every value.
pub set_side-ind {ℓ κ} :
    {A : Type ℓ} (P : Bool → A → Type κ) (f : Bool → A) (s : Bool) (v : A)
    → P s v
    → ((t : Bool) → P t (f t))
    → (t : Bool) → P t (set_side f s v t)
set_side-ind P f true v new old true = new
set_side-ind P f true v new old false = old false
set_side-ind P f false v new old true = old true
set_side-ind P f false v new old false = new

pub side_new {ℓ} : {A : Type ℓ} (f : Bool → A) (s : Bool) (v : A) → set_side f s v s ≡ v
side_new f true v = refl
side_new f false v = refl

-- The other half is still done.
pub copying-keeps :
    (f : Bool → Half) (s : Bool) (c : Half)
    → (f s).stage ≡ copying
    → (t : Bool) → (f t).stage ≡ done
    → (set_side f s c t).stage ≡ done
copying-keeps f true c was true over = cc
copying-keeps f true c was false over = over
copying-keeps f false c was true over = over
copying-keeps f false c was false over = cc

pub finish-keeps :
    (f : Bool → Half) (s t : Bool)
    → (f t).stage ≡ done
    → (set_side f s (record (f s) { stage = done }) t).stage ≡ done
finish-keeps f s =
    set_side-ind (λ t x. (f t).stage ≡ done → x.stage ≡ done) f s _ (λ over. refl) (λ t over. over)

pub read-stream : (n : ℕ) (c : Half) → c.pending ≡ [] → stream (read_chunk n c) ≡ stream c
unfolding read_chunk
read-stream n c e =
    ap (◌++◌ c.received)
      (take-append-drop n c.incoming ∙ ap (λ (p : Bytes). p ++ c.incoming) (sym e))

pub write-stream : (c : Half) → stream (write_chunk c) ≡ stream c
unfolding write_chunk
write-stream c = append_assoc c.received c.pending c.incoming

pub read-stage : (n : ℕ) (c : Half) → (read_chunk n c).stage ≡ c.stage
unfolding read_chunk
read-stage n c = refl

pub write-stage : (c : Half) → (write_chunk c).stage ≡ c.stage
unfolding write_chunk
write-stage c = refl

pub finish-kept : (e : End) → (finish_half e).has_close_write ≡ e.has_close_write
unfolding finish_half
finish-kept e = ground arith

pub finish-closed :
    (e : End) → (finish_half e).closed ≡ true → (e.closed ≡ true) ⊎ (e.has_close_write ≡ false)
unfolding finish_half
finish-closed e h = ground arith
