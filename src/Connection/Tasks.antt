-- ===== src/Connection/Tasks.antt =====
-- connection.go: `Send` and `Close`, which queue a task for the loop, and what the loop does with these tasks.
use goreactor.Common.{
  ℕ, suc, Bool, true, false, List, [], ◌∷◌, ◌++◌, Option, some, none, ◌≡◌, ◌⊎◌, inl, inr, refl, ap,
  sym, ◌∙◌, arith,
}
use goreactor.Common.{if◌then◌else◌, ◌>>=◌, Bool-cases}
use mathlib.Core.List.{append_assoc, append-nil}
use goreactor.RingBuffer.Contents.{contents, IsValid}
use goreactor.Connection.Defs.{Conn, System, Works, handle_close, send_in_loop, stream}
use goreactor.Connection.Sending.{IsArmed, handle_close_lem, send_in_loop_lem, written_lem}

-- The functions that `Send` and `Close` queue.
pub data Task (D : Type 0) : Type 0 where
  sends : D → Task D
  closes : Task D

-- `Send` and `Close`: the tasks behind those queued before; `none` is ErrConnectionClosed.
unfoldable pub queue : {D : Type 0} → Conn → Task D → List (Task D) → Option (List (Task D))
queue c task tasks = if c.connected then some (tasks ++ task ∷ []) else none

module _ {D : Type 0} (packet : D → List ℕ) where
  -- A task that is run, with what the system calls do then; `none` ends the process.
  unfoldable pub run_task : System → Task D → Conn → Option Conn
  run_task sys (sends data_sent) c =
      if c.connected
      then (send_in_loop sys c (packet data_sent) >>= λ done. some done.0)
      else some c
  run_task sys closes c = handle_close sys c

  -- The tasks one after the other; the number of a task chooses its system calls.
  unfoldable pub run_tasks : (ℕ → System) → ℕ → List (Task D) → Conn → Option Conn
  run_tasks sys i [] c = some c
  run_tasks sys i (t ∷ ts) c = run_task (sys i) t c >>= run_tasks sys (suc i) ts

  -- The bytes of the messages before the first `Close`, in order.
  unfoldable pub messages : List (Task D) → List ℕ
  messages [] = []
  messages (sends data_sent ∷ ts) = packet data_sent ++ messages ts
  messages (closes ∷ ts) = []

  unfoldable pub has_close : List (Task D) → Bool
  has_close [] = false
  has_close (sends data_sent ∷ ts) = has_close ts
  has_close (closes ∷ ts) = true

  -- A closed connection stays as it is.
  closed_lem :
      (sys : ℕ → System) (i : ℕ) (ts : List (Task D)) (c : Conn)
      → c.connected ≡ false
      → run_tasks sys i ts c ≡ some c
  unfolding run_tasks run_task handle_close
  closed_lem sys i [] c down = refl
  closed_lem sys i (sends data_sent ∷ ts) c down = ground (arith, closed_lem sys (suc i) ts c down)
  closed_lem sys i (closes ∷ ts) c down = ground (arith, closed_lem sys (suc i) ts c down)

  -- What becomes of a connection: what the peer was sent, with what waits behind it, is the beginning of what it
  -- was to be sent before with the messages, and all of that unless the connection was closed.
  pub record Delivers (ts : List (Task D)) (c c' : Conn) : Type 0 where
    pub lost : List ℕ
    pub flows : stream c' ++ lost ≡ stream c ++ messages ts
    pub all_or_closed :
        ((c'.connected ≡ true) × (lost ≡ []) × (has_close ts ≡ false))
        ⊎ ((c'.connected ≡ false) × (stream c' ≡ c'.written))

  -- The tasks that Send and Close queued, run by the loop on a live connection with a valid output buffer, reported
  -- as writable exactly when bytes wait, do not end the process, whatever unix.Write does, if no other system call
  -- fails. If the connection is not closed afterwards, no task asked to close it, and the bytes that the kernel took
  -- with those that wait behind them are those from before with all messages behind, in order. If it is closed,
  -- nothing waits, and the bytes that the kernel took are the beginning of those from before with the messages behind
  -- that were queued ahead of the first Close: a message may be cut, and what comes after is lost.
  pub run_tasks_lem :
      (sys : ℕ → System) (i : ℕ) (ts : List (Task D)) (c : Conn)
      → ((j : ℕ) → Works (sys j))
      → IsValid c.out_buf
      → IsArmed c
      → c.connected ≡ true
      → (c' : Conn) × (run_tasks sys i ts c ≡ some c') × Delivers ts c c'
  unfolding run_tasks run_task messages has_close
  run_tasks_lem sys i [] c works v armed live =
      (c, refl, record { lost = []; flows = refl; all_or_closed = inl (live, refl, refl) })
  run_tasks_lem sys i (closes ∷ ts) c works v armed live =
      let (c', shuts, ends) = handle_close_lem (sys i) c (works i).1 v live in
      (
        c',
        ground (arith, shuts, closed_lem sys (suc i) ts c' ends.down),
        record {
          lost = contents c.out_buf;
          flows = ap (λ l. l ++ contents c.out_buf) ends.flows ∙ sym (append-nil (stream c));
          all_or_closed = inr (ends.down, written_lem c' ends.keeps ends.empty);
        },
      )
  run_tasks_lem sys i (sends m ∷ ts) c works v armed live =
      let (c', closed, returns, goes) =
        send_in_loop_lem (sys i) c (packet m) (works i).1 v armed live in
      elim (Bool-cases closed) [
        | inl shut ↦
            let down : c'.connected ≡ false = ground (arith, goes.still) in
            let left = closed_lem sys (suc i) ts c' down in
            let flow : stream c' ≡ stream c = ground (arith, goes.flows) in
            (
              c',
              ground (arith, returns, left),
              record {
                lost = packet m ++ messages ts;
                flows = ap (λ l. l ++ (packet m ++ messages ts)) flow;
                all_or_closed =
                    inr (down, written_lem c' goes.keeps (ground (arith, goes.emptied)));
              },
            )
        | inr opened ↦
            let up : c'.connected ≡ true = ground (arith, goes.still) in
            let flow : stream c' ≡ stream c ++ packet m = ground (arith, goes.flows) in
            let (last, runs, delivers) =
              run_tasks_lem sys (suc i) ts c' works goes.keeps (ground (arith, goes.armed, works i))
                up in
            (
              last,
              ground (arith, returns, runs),
              record {
                lost = delivers.lost;
                flows =
                    delivers.flows
                    ∙ ap (λ l. l ++ messages ts) flow
                    ∙ append_assoc (stream c) (packet m) (messages ts);
                all_or_closed = delivers.all_or_closed;
              },
            )
      ]
