-- ===== src/Server/Run/Joins.antt =====
-- internal/server/server.go: what `Run` has done when it returns.
use g_tun.Prelude.{
  ℕ, suc, ◌+◌, ◌≡◌, refl, sym, ap, ◌∙◌, Bool, true, Option, none, some, List, [], ◌∷◌, ◌++◌, map,
  length, length-append, append_assoc, append-nil, arith,
}
use g_tun.Result.{Error}
use g_tun.Server.{Service}
use g_tun.Server.Run.{
  Listener, data_listener, control_listener, listeners, Report, Stage, waiting, joining, returned,
  join, Process, take_report, Without, here, there, Step, ends, first, joins, finishes, Reach,
  start, next,
}

-- One for the listener itself, and none for the other one.
abbrev one_if : Listener → Listener → ℕ
one_if data_listener data_listener = 1
one_if data_listener control_listener = 0
one_if control_listener data_listener = 0
one_if control_listener control_listener = 1

abbrev pub count : Listener → List Listener → ℕ
count l [] = 0
count l (k ∷ ks) = one_if l k + count l ks

-- The errors among the reports, in their order.
abbrev pub errors_of : List Report → List Error
errors_of [] = []
errors_of (r ∷ rs) = join [] r.error ++ errors_of rs

abbrev pub senders : List Report → List Listener
senders rs = map (λ (r : Report). r.from) rs

count-senders :
    (l : Listener) (rs : List Report) (r : Report)
    → count l (senders (rs ++ (r ∷ []))) ≡ count l (senders rs) + one_if l r.from
count-senders l [] r = omega arith
count-senders l (x ∷ rs) r = omega (arith, count-senders l rs r)

join-append : (es : List Error) (e : Option Error) → join es e ≡ es ++ join [] e
join-append es none = sym (append-nil es)
join-append es (some e) = refl

errors_of-append :
    (rs : List Report) (r : Report) → errors_of (rs ++ (r ∷ [])) ≡ errors_of rs ++ join [] r.error
errors_of-append [] r = append-nil (join [] r.error)
errors_of-append (x ∷ rs) r =
    ap (◌++◌ (join [] x.error)) (errors_of-append rs r)
    ∙ sym (append_assoc (join [] x.error) (errors_of rs) (join [] r.error))

join-errors_of :
    (rs : List Report) (r : Report) → join (errors_of rs) r.error ≡ errors_of (rs ++ (r ∷ []))
join-errors_of rs r = join-append (errors_of rs) r.error ∙ sym (errors_of-append rs r)

-- The stage for the reports that were received.
abbrev Staged : ℕ → List Report → Bool → Stage → Type 0
Staged total received cancelled waiting = received ≡ []
Staged total received cancelled (joining n es) =
    (length received + n ≡ total) × (es ≡ errors_of received) × (cancelled ≡ true)
Staged total received cancelled (returned es) =
    (length received ≡ total) × (es ≡ errors_of received) × (cancelled ≡ true)

pub record Counted (ls : List Listener) (p : Process) : Type 0 where
  pub received : List Report
  pub queued : p.sent ≡ received ++ p.errs
  pub total : length p.running + length p.sent ≡ length ls
  -- Each listener is running or has reported, once.
  pub each : (l : Listener) → count l p.running + count l (senders p.sent) ≡ count l ls
  pub staged : Staged (length ls) received p.cancelled p.stage

pub Without-length :
    (l : Listener) {xs ys : List Listener} → Without l xs ys → length xs ≡ suc (length ys)
Without-length l (here ls) = refl
Without-length l (there k ls rest w) = ap suc (Without-length l w)

Without-count :
    (k l : Listener) {xs ys : List Listener}
    → Without l xs ys
    → count k xs ≡ count k ys + one_if k l
Without-count k l (here ls) = omega arith
Without-count k l (there j ls rest w) = omega (arith, Without-count k l w)

receives-Counted :
    (ls : List Listener) (p : Process) (c : Counted ls p) (r : Report) (rest : List Report) (n : ℕ)
    (es : List Error)
    → p.errs ≡ r ∷ rest
    → length c.received + suc n ≡ length ls
    → es ≡ join (errors_of c.received) r.error
    → Counted ls (take_report (joining n es) rest p)
receives-Counted ls p c r rest n es e left joined = record {
  received = c.received ++ (r ∷ []);
  queued = c.queued ∙ ap (◌++◌ c.received) e ∙ sym (append_assoc c.received (r ∷ []) rest);
  total = c.total;
  each = c.each;
  staged = (
    omega (arith, length-append c.received (r ∷ [])),
    joined ∙ join-errors_of c.received r,
    refl,
  );
}

Step-Counted :
    (ls : List Listener) {p q : Process} → Step (length ls) p q → Counted ls p → Counted ls q
Step-Counted ls {p} (ends l error rest w room) c = record {
  received = c.received;
  queued = rw c.queued (append_assoc c.received p.errs (record { from = l; error = error } ∷ []));
  total = omega (
    arith,
    c.total,
    Without-length l w,
    length-append p.sent (record { from = l; error = error } ∷ []),
  );
  each = λ k. omega (
    arith,
    c.each k,
    Without-count k l w,
    count-senders k p.sent (record { from = l; error = error }),
  );
  staged = c.staged;
}
Step-Counted ls {p} (first r rest n was e enough) c =
    receives-Counted ls p c r rest n _ e (omega (arith, ap length none_yet)) (rw none_yet refl)
  where
    none_yet : c.received ≡ []
    none_yet = (rw was at c.staged)
Step-Counted ls {p} (joins r rest n es was e) c =
    let (left, joined, _) = (rw was at c.staged) in
    receives-Counted ls p c r rest n _ e left (ap (λ (x : List Error). join x r.error) joined)
Step-Counted ls {p} (finishes es was) c =
    let (left, joined, done) = (rw was at c.staged) in
    record {
      received = c.received;
      queued = c.queued;
      total = c.total;
      each = c.each;
      staged = (omega arith, joined, done);
    }

pub Reach-Counted : {ls : List Listener} {n : ℕ} {p : Process} → Reach ls n p → Counted ls p
Reach-Counted start = record {
  received = [];
  queued = refl;
  total = omega arith;
  each = λ l. omega arith;
  staged = refl;
}
Reach-Counted (next r st) = Step-Counted _ st (Reach-Counted r)

-- When the server's `Run` returns, it has cancelled the context, no listener runs any more, each of
-- them has reported exactly once, and the error that `Run` returns joins exactly the errors that
-- they reported, in the order of the reports: it is nil exactly if all of them returned nil.
pub run_joins :
    (s : Service) (n : ℕ) (p : Process) (es : List Error)
    → Reach (listeners s) n p
    → p.stage ≡ returned es
    → (p.cancelled ≡ true)
      × (p.running ≡ [])
      × (es ≡ errors_of p.sent)
      × ((l : Listener) → count l (senders p.sent) ≡ count l (listeners s))
run_joins s n p es r e =
    let c = Reach-Counted r in
    let (all, joined, done) = (rw e at c.staged) in
    let idle : p.running ≡ [] =
      empty p.running
        (omega (arith, c.total, ap length c.queued, length-append c.received p.errs)) in
    let over : p.errs ≡ [] =
      empty p.errs (omega (arith, c.total, ap length c.queued, length-append c.received p.errs)) in
    (
      done,
      idle,
      joined ∙ ap errors_of (sym (c.queued ∙ ap (◌++◌ c.received) over ∙ append-nil c.received)),
      λ l. omega (arith, c.each l, ap (count l) idle),
    )
  where
    empty : {A : Type 0} (xs : List A) → length xs ≡ 0 → xs ≡ []
    empty [] h = refl
    empty (x ∷ xs) h = absurd (omega arith)
