-- ===== src/Tcp/Reassembly.antt =====
-- A whole byte stream, read in pieces by the throughput agent: no response is lost or counted twice,
-- however the pieces cut the stream.
use mathlib.Core.List.{append-nil, append_assoc, flatten}
use kata_load_test.Base.{
  ℕ, zero, suc, ◌+◌, ◌*◌, ◌≤◌, ◌<◌, ◌≡◌, refl, ap, ◌∙◌, true, Option, none, some, List, [], ◌∷◌,
  ◌++◌, arith, length, drop, ok, Outcome, ◌>>=◌, All, length-append,
}
use kata_load_test.Stats.State.{ByteReqPair}
use kata_load_test.AppProto.Response.{AppProto, unit_size}
use kata_load_test.Tcp.Connection.{TcpConnection, max_payload, bytes}
use kata_load_test.Tcp.Receive.{receive}
use kata_load_test.Tcp.Stream.{contents, Counted, receive-Counted, length-contents}

abbrev pub reqs_of : Option ByteReqPair → ℕ
reqs_of none = 0
reqs_of (some r) = r.reqs

-- The reads one after another, and how many responses they count together.
pub receive_all : AppProto → List (List ℕ) → TcpConnection → Outcome (ℕ × TcpConnection)
receive_all proto [] c = ok (0, c)
receive_all proto (bs ∷ pieces) c = do
  (r, c') ← receive proto true (bytes bs) c
  (n, c'') ← receive_all proto pieces c'
  ok (reqs_of r + n, c'')

-- A piece that holds at least one response, and leaves room for what is kept of the one before.
abbrev pub IsPiece : ℕ → List ℕ → Type 0
IsPiece size bs = (size ≤ length bs) × (length bs + size ≤ max_payload)

drop-drop :
    (m n : ℕ) (xs ys : List ℕ) → m ≤ length xs → drop n (drop m xs ++ ys) ≡ drop (m + n) (xs ++ ys)
drop-drop zero n xs ys h = let e : 0 + n ≡ n = omega arith in rw e
drop-drop (suc m) n [] ys h = absurd (omega arith)
drop-drop (suc m) n (x ∷ xs) ys h =
    let e : suc m + n ≡ suc (m + n) = omega arith in rw e (drop-drop m n xs ys (omega arith))

-- The stream `xs` is split into `n` responses and the bytes that the buffer holds.
pub record Split (size n : ℕ) (xs : List ℕ) (c : TcpConnection) : Type 0 where
  pub rest : contents c ≡ drop (n * size) xs
  pub account : n * size + length (contents c) ≡ length xs
  pub part : length (contents c) < size

Split-none :
    (size : ℕ) (c : TcpConnection) → c.buffer_idx < size → Split size 0 (contents c ++ []) c
Split-none size c small =
    let none_yet : 0 * size ≡ 0 = omega arith in
    rw append-nil (record {
      rest = rw none_yet;
      account = omega arith;
      part = omega (arith, length-contents c);
    })

-- A read, and then the reads of the rest of the stream.
Split-more :
    (size n : ℕ) (bs more : List ℕ) (c c' c'' : TcpConnection) (r : ByteReqPair)
    → Counted size bs c c' r
    → Split size n (contents c' ++ more) c''
    → Split size (r.reqs + n) (contents c ++ (bs ++ more)) c''
Split-more size n bs more c c' c'' r k s =
    let len = length-append (contents c) bs in
    let len' = length-contents c in
    let shape = append_assoc (contents c) bs more in
    let dist : (r.reqs + n) * size ≡ r.reqs * size + n * size = omega arith in
    record {
      rest =
          s.rest
          ∙ ap (λ xs. drop (n * size) (xs ++ more)) k.rest
          ∙ drop-drop (r.reqs * size) (n * size) (contents c ++ bs) more
              (omega (arith, len, len', k.left))
          ∙ rw (dist, shape);
      account = omega (
        arith,
        s.account,
        dist,
        len,
        len',
        length-contents c',
        k.left,
        length-append (contents c') more,
        length-append (contents c ++ bs) more,
        ap length shape,
      );
      part = s.part;
    }

module _ (proto : AppProto) (pos : 0 < unit_size proto) where
  -- If responses are not empty, the buffer holds less than one of them, and every piece holds at
  -- least one and fits behind that, all reads succeed: the stream, starting with what
  -- the buffer held, is `n` whole responses, which are counted, and the bytes behind them, fewer
  -- than one response, which the buffer then holds.
  pub receive_all-reassembles :
      (pieces : List (List ℕ)) (c : TcpConnection)
      → All (IsPiece (unit_size proto)) pieces
      → c.buffer_idx < unit_size proto
      → (n : ℕ) × (c' : TcpConnection) × (receive_all proto pieces c ≡ ok (n, c'))
        × Split (unit_size proto) n (contents c ++ flatten pieces) c'
  unfolding receive_all flatten
  receive_all-reassembles [] c fit small = (0, c, refl, Split-none (unit_size proto) c small)
  receive_all-reassembles ([] ∷ pieces) c fit small = absurd (omega arith)
  receive_all-reassembles ((b ∷ bs) ∷ pieces) c fit small =
      let (r, c', run, k) = receive-Counted proto b bs c pos (omega arith) (omega arith) in
      let (n, c'', rest, s) = receive_all-reassembles pieces c' fit.1 k.part in
      (
        r.reqs + n,
        c'',
        rw run (rw rest),
        Split-more (unit_size proto) n (b ∷ bs) (flatten pieces) c c' c'' r k s,
      )
