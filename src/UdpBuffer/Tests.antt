-- ===== src/UdpBuffer/Tests.antt =====
-- The pool of src/udp_buffer.rs over a list with a limit, which is an `ArrayQueue`.
use dht_crawler.Base.{arith, ℕ, ◌≡◌, refl, ltb, if◌then◌else◌, List, [], ◌∷◌, ◌++◌, length, Option}
use dht_crawler.UdpBuffer.{ArrayQueue, Buffer, rest_of, head_of, UdpBufferPool, acquire, release}
use dht_crawler.UdpBuffer.Sizes.{Inv, acquire-release-Inv}

abbrev pub Limited : Type 0
Limited = List Buffer × ℕ

abbrev pub push_limited : Buffer → Limited → Limited
push_limited buf (bufs, n) = (if ltb (length bufs) n then bufs ++ (buf ∷ []) else bufs, n)

abbrev pub pop_limited : Limited → Limited × Option Buffer
pop_limited (bufs, n) = ((rest_of bufs, n), head_of bufs)

abbrev pub limited : ArrayQueue
limited = record {
  T = Limited;
  new_queue = λ n. ([], n);
  push = push_limited;
  pop = pop_limited;
  content = λ q. q.0;
  limit = λ q. q.1;
  new-content = λ n. refl;
  new-limit = λ n. refl;
  push-content = λ buf q. refl;
  push-limit = λ buf q. refl;
  pop-content = λ q. refl;
  pop-result = λ q. refl;
  pop-limit = λ q. refl;
}

-- Buffers of four bytes, of which one is free.
abbrev pool : UdpBufferPool limited
pool = record { free = ((1 ∷ 2 ∷ 3 ∷ 4 ∷ []) ∷ [], 2); buf_capacity = 4 }

pool-Inv : Inv limited pool
pool-Inv = record { sized = (refl, tt); bounded = omega arith }

reused : (acquire limited pool).1 ≡ 1 ∷ 2 ∷ 3 ∷ 4 ∷ []
unfolding acquire
reused = refl

allocated : (acquire limited (acquire limited pool).0).1 ≡ 0 ∷ 0 ∷ 0 ∷ 0 ∷ []
unfolding acquire
allocated = refl

wrong_size : release limited (1 ∷ []) pool ≡ pool
unfolding release
wrong_size = refl

acquire-release-Inv_example :
    Inv limited (acquire limited pool).0
    × (length (acquire limited pool).1 ≡ 4)
    × Inv limited (release limited (5 ∷ 6 ∷ 7 ∷ 8 ∷ []) pool)
acquire-release-Inv_example = acquire-release-Inv limited pool (5 ∷ 6 ∷ 7 ∷ 8 ∷ []) pool-Inv
