-- ===== src/Commons/Socket.antt =====
-- The transfer loops of grage-commons/app/src/misc/linux-commons-socket.c. The kernel is a
-- parameter: the counts that successive `send` calls accept, and the chunks that successive `recv`
-- calls give. By their documentation a call handles at most as many bytes as it is asked to, and
-- 0 or -1 (here a count 0 or an empty chunk) is the end or an error, which leaves the loop. Where
-- the list ends, no further call returns. The counts that the two functions return are left out,
-- since no caller reads them.
use Prim.Native.Nat.{min}
use grage_fat.Base.{
  ℕ, zero, suc, ◌-◌, ◌<◌, ◌≤◌, ◌≡◌, refl, ap, ◌∙◌, true, false, List, [], ◌∷◌, ◌++◌, append-nil,
  length, take, drop, take_of_length, drop_of_length, leb, if◌then◌else◌, arith,
}

-- `commons_socket_sendBytes`: the bytes that reach the peer. Every call of `send` is given
-- `bytesToSend` itself, from its start.
unfoldable pub send_loop : List ℕ → List ℕ → ℕ → List ℕ
send_loop [] bytes left = []
send_loop (zero ∷ accepted) bytes left = []
send_loop (suc k ∷ accepted) bytes left =
    let sent = take (min (suc k) left) bytes in
    let more = send_loop accepted bytes (left - suc k) in
    if leb left (suc k) then sent else sent ++ more

unfoldable pub send_bytes : List ℕ → List ℕ → List ℕ
unfolding send_loop
send_bytes accepted bytes = send_loop accepted bytes (length bytes)

-- `commons_socket_receiveBytes`: the buffer afterwards. Every call of `recv` is given
-- `bytesToReceive` itself, from its start.
unfoldable pub receive_loop : List (List ℕ) → ℕ → List ℕ → List ℕ
receive_loop [] left buffer = buffer
receive_loop ([] ∷ chunks) left buffer = buffer
receive_loop ((b ∷ bs) ∷ chunks) left buffer =
    let got = take left (b ∷ bs) in
    let buffer' = got ++ drop (length got) buffer in
    let more = receive_loop chunks (left - length (b ∷ bs)) buffer' in
    if leb left (length (b ∷ bs)) then buffer' else more

unfoldable pub receive_bytes : List (List ℕ) → List ℕ → List ℕ
unfolding receive_loop
receive_bytes chunks buffer = receive_loop chunks (length buffer) buffer

send_loop_rest :
    (bytes : List ℕ) (left n : ℕ) (accepted : List ℕ)
    → 0 < n
    → left ≤ n
    → send_loop (n ∷ accepted) bytes left ≡ take left bytes
unfolding send_loop
send_loop_rest bytes left zero accepted p h = absurd (omega arith)
send_loop_rest bytes left (suc k) accepted p h =
    let fits : leb left (suc k) ≡ true = ground arith in
    let whole : min (suc k) left ≡ left = omega arith in rw (fits, whole)

-- One `send` that takes everything delivers everything.
pub send_bytes_whole :
    (bytes : List ℕ) (n : ℕ) (accepted : List ℕ)
    → 0 < n
    → length bytes ≤ n
    → send_bytes (n ∷ accepted) bytes ≡ bytes
unfolding send_bytes
send_bytes_whole bytes n accepted p h =
    send_loop_rest bytes (length bytes) n accepted p h
    ∙ take_of_length (length bytes) bytes (omega arith)

-- A `send` that takes only a part of the bytes is repeated from their start: after a first call
-- that accepts `n` bytes and a second that accepts the rest, the peer has the first `n` bytes and
-- behind them the start of the message again, as many bytes as were left.
pub send_bytes_partial :
    (bytes : List ℕ) (n : ℕ) (accepted : List ℕ)
    → 0 < n
    → n < length bytes
    → send_bytes (n ∷ (length bytes - n) ∷ accepted) bytes
      ≡ take n bytes ++ take (length bytes - n) bytes
unfolding send_bytes send_loop
send_bytes_partial bytes zero accepted p h = absurd (omega arith)
send_bytes_partial bytes (suc k) accepted p h =
    let short : leb (length bytes) (suc k) ≡ false = ground arith in
    let part : min (suc k) (length bytes) ≡ suc k = omega arith in
    rw (short, part)
      (ap (◌++◌ (take (suc k) bytes)) (
        send_loop_rest bytes (length bytes - suc k) (length bytes - suc k) accepted (omega arith)
          (omega arith)))

-- One `recv` that fills the buffer leaves the bytes received in it.
pub receive_bytes_whole :
    (bytes : List ℕ) (chunks : List (List ℕ)) (buffer : List ℕ)
    → 0 < length bytes
    → length bytes ≡ length buffer
    → receive_bytes (bytes ∷ chunks) buffer ≡ bytes
unfolding receive_bytes
receive_bytes_whole [] chunks buffer p h = absurd (omega arith)
receive_bytes_whole (b ∷ bs) chunks buffer p h =
    let fits : leb (length buffer) (length (b ∷ bs)) ≡ true = ground arith in
    let whole = take_of_length (length buffer) (b ∷ bs) (omega arith) in
    rw (fits, whole)
      (ap (◌++◌ (b ∷ bs)) (drop_of_length (length (b ∷ bs)) buffer (omega arith))
        ∙ append-nil (b ∷ bs))

-- A connection that is closed before the first byte leaves the buffer as it was.
pub receive_bytes_closed :
    (chunks : List (List ℕ)) (buffer : List ℕ) → receive_bytes ([] ∷ chunks) buffer ≡ buffer
unfolding receive_bytes
receive_bytes_closed chunks buffer = refl
