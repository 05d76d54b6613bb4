-- ===== src/RingBuffer/Queue.antt =====
-- The specification: a ring buffer behaves as an unbounded first-in first-out queue of bytes.
use goreactor.Common.{
  ℕ, zero, suc, ◌≤◌, min, List, [], ◌∷◌, Option, some, ◌++◌, ◌≡◌, arith, refl, ap, sym, ◌∙◌,
}
use goreactor.Common.{
  ◌>>=◌, length, take, drop, overwrite, replicate, length-replicate, length-take, take_min,
}
use goreactor.RingBuffer.Defs.{RingBuffer, read, write, retrieve, retrieve_all}
use goreactor.RingBuffer.Access.{peek}
use goreactor.RingBuffer.Contents.{contents, IsValid, length-contents}
use goreactor.RingBuffer.Reading.{read_lem}
use goreactor.RingBuffer.Growing.{write_lem}
use goreactor.RingBuffer.Bytewise.{retrieve_lem, retrieve_all-IsValid}
use goreactor.RingBuffer.Peeking.{peek_lem}
use goreactor.RingBuffer.Making.{length-zero}

-- A client's calls: `Write`, `Read` into a fresh slice, `Retrieve`, `Peek` and `RetrieveAll`.
pub data Op : Type 0 where
  put : List ℕ → Op
  get : ℕ → Op
  skip : ℕ → Op
  look : ℕ → Op
  clear : Op

-- What the client sees of a call: a count, the bytes handed out, or nothing.
pub data Reply : Type 0 where
  count : ℕ → Reply
  bytes : List ℕ → Reply
  done : Reply

pub step : RingBuffer → Op → Option (Reply × RingBuffer)
step s (put p) = write s p >>= λ out. some (count out.0, out.1)
step s (get n) = read s (replicate n 0) >>= λ out. some (bytes (take out.n out.p), out.ring)
step s (skip n) = retrieve s n >>= λ s'. some (done, s')
step s (look n) = peek s n >>= λ out. some (bytes (out.0 ++ out.1), s)
step s clear = some (done, retrieve_all s)

-- The same calls on a list of bytes, oldest first.
pub queue_step : List ℕ → Op → Reply × List ℕ
queue_step q (put p) = (count (length p), q ++ p)
queue_step q (get n) = (bytes (take n q), drop n q)
queue_step q (skip n) = (done, drop n q)
queue_step q (look n) = (bytes (take n q), q)
queue_step q clear = (done, [])

pub run : RingBuffer → List Op → Option (List Reply)
run s [] = some []
run s (op ∷ ops) = step s op >>= λ out. run out.1 ops >>= λ replies. some (out.0 ∷ replies)

pub queue_run : List ℕ → List Op → List Reply
queue_run q [] = []
queue_run q (op ∷ ops) = let (reply, q') = queue_step q op in reply ∷ queue_run q' ops

-- One call: the reply is the queue's, and so are the contents afterwards.
pub record Refines (s : RingBuffer) (op : Op) : Type 0 where
  pub next : RingBuffer
  pub returns : step s op ≡ some ((queue_step (contents s) op).0, next)
  pub holds : contents next ≡ (queue_step (contents s) op).1
  pub keeps : IsValid next

drop_all : (n : ℕ) (xs : List ℕ) → length xs ≤ n → drop n xs ≡ []
drop_all zero [] h = refl
drop_all zero (x ∷ xs) h = absurd (omega arith)
drop_all (suc n) [] h = refl
drop_all (suc n) (x ∷ xs) h = drop_all n xs (omega arith)

drop_min : (n : ℕ) (xs : List ℕ) (m : ℕ) → m ≡ min n (length xs) → drop m xs ≡ drop n xs
drop_min n [] zero h = sym (drop_all n [] (omega arith))
drop_min n [] (suc m) h = absurd (omega arith)
drop_min zero (x ∷ xs) zero h = refl
drop_min zero (x ∷ xs) (suc m) h = absurd (omega arith)
drop_min (suc n) (x ∷ xs) zero h = absurd (omega arith)
drop_min (suc n) (x ∷ xs) (suc m) h = drop_min n xs m (omega arith)

take-overwrite :
    (zeros c : List ℕ) (n : ℕ) → length c ≡ n → n ≤ length zeros → take n (overwrite zeros c) ≡ c
take-overwrite zeros [] zero h k = refl
take-overwrite zeros [] (suc n) h k = absurd (omega arith)
take-overwrite [] (x ∷ c) n h k = absurd (omega arith)
take-overwrite (z ∷ zeros) (x ∷ c) zero h k = absurd (omega arith)
take-overwrite (z ∷ zeros) (x ∷ c) (suc n) h k =
    ap (λ l. x ∷ l) (take-overwrite zeros c n (omega arith) (omega arith))

step-Refines : (s : RingBuffer) (op : Op) → IsValid s → Refines s op
unfolding step queue_step
step-Refines s (put p) v =
    let (s', returns, appends) = write_lem s p v in
    record { next = s'; returns = rw returns; holds = appends.bytes; keeps = appends.keeps }
step-Refines s (get n) v =
    let (out, returns, reads) = read_lem s (replicate n 0) v in
    let m : out.n ≡ min n (length (contents s)) =
      omega (arith, reads.count, length-replicate {A = ℕ} n 0) in
    record {
      next = out.ring;
      returns = rw (
        returns,
        reads.bytes,
        take-overwrite (replicate n 0) (take out.n (contents s)) out.n
            (omega (arith, m, length-take out.n (contents s)))
            (omega (arith, m, length-replicate {A = ℕ} n 0)),
        take_min n (contents s) out.n m,
      );
      holds = reads.rest ∙ drop_min n (contents s) out.n m;
      keeps = reads.keeps;
    }
step-Refines s (skip n) v =
    let (s', returns, rest, keeps) = retrieve_lem s n v in
    record { next = s'; returns = rw returns; holds = rest; keeps = keeps }
step-Refines s (look n) v =
    let (first, end, returns, joined) = peek_lem s n v in
    record { next = s; returns = rw (returns, joined); holds = refl; keeps = v }
step-Refines s clear v =
    let (keeps, emptied) = retrieve_all-IsValid v in
    record {
      next = retrieve_all s;
      returns = refl;
      holds = length-zero _ (length-contents keeps ∙ emptied);
      keeps = keeps;
    }

-- No sequence of these calls panics on a valid buffer, and each returns what the queue of its
-- contents returns.
pub run_refines :
    (s : RingBuffer) (ops : List Op) → IsValid s → run s ops ≡ some (queue_run (contents s) ops)
unfolding run queue_run
run_refines s [] v = refl
run_refines s (op ∷ ops) v =
    let one = step-Refines s op v in rw (one.returns, run_refines one.next ops one.keeps, one.holds)
