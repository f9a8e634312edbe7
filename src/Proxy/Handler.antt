-- ===== src/Proxy/Handler.antt =====
-- `RestLockProxy._handle` and `_forward` of lock_proxy.py, by what the files, the client and the upstream answer.
use mathlib.Core.Path.{subst}
use hermes_fleet.Prelude.{
  sym, inl, inr, Bool-cases, nat_beq_iff, ltb_false→le, ℕ, ◌≡◌, ◌≤◌, refl, Bool, true, false, ◌&&◌,
  not, arith, if◌then◌else◌, if_cases, ltb, nat_beq,
}

-- What `stat` on the lock file comes to.
pub data Stat : Type 0 where
  present not_found os_error : Stat

-- Fail closed: a lock that cannot be read is active.
unfoldable pub lock_is_active : Stat → Bool
lock_is_active not_found = false
lock_is_active os_error = true
lock_is_active present = true

-- `int(self.headers.get("Content-Length") or 0)`; an absent header reads as 0.
pub data Length : Type 0 where
  invalid negative : Length
  number : ℕ → Length

-- What reading the body comes to: a count of bytes, or a timeout.
pub data Body : Type 0 where
  got : ℕ → Body
  timed_out : Body

pub data Upstream : Type 0 where
  answers : ℕ → Upstream
  http_error : ℕ → Upstream
  unreachable : Upstream

-- `first` is the lock when the request comes, `second` the lock under the gate, if the gate opens.
pub record Request : Type 0 where
  pub first : Stat
  pub length : Length
  pub transfer_encoding : Bool
  pub body : Body
  pub gate_opens : Bool
  pub second : Stat
  pub upstream : Upstream

pub data Reply : Type 0 where
  locked : Reply
  error : ℕ → Reply
  forwarded : ℕ → Reply

abbrev pub max_body : ℕ
max_body = 16777216

unfoldable pub forward : Upstream → Reply
forward (answers status) = forwarded status
forward (http_error code) = forwarded code
forward unreachable = forwarded 502

-- Under the shared lock of the gate.
unfoldable pub admitted : Request → Reply
admitted r =
    if r.gate_opens
    then if lock_is_active r.second then locked else forward r.upstream
    else error 503

unfoldable pub read_body : ℕ → Body → Request → Reply
read_body n timed_out r = if nat_beq n 0 then admitted r else error 408
read_body n (got k) r = if not (nat_beq n 0) && not (nat_beq k n) then error 400 else admitted r

unfoldable pub framed : Length → Request → Reply
framed invalid r = error 400
framed negative r = error 400
framed (number n) r =
    if r.transfer_encoding
    then error 400
    else if ltb max_body n
    then error 413
    else read_body n r.body r

unfoldable pub handle : Request → Reply
handle r = if lock_is_active r.first then locked else framed r.length r

-- The body is whole: there is none, or all of its bytes were read.
pub data Whole : ℕ → Body → Type 0 where
  empty : (b : Body) → Whole 0 b
  full : (n : ℕ) → Whole n (got n)

pub record Admitted (r : Request) : Type 0 where
  pub free_at_first : r.first ≡ not_found
  pub size : ℕ
  pub sized : r.length ≡ number size
  pub small : size ≤ max_body
  pub plain : r.transfer_encoding ≡ false
  pub whole : Whole size r.body
  pub opened : r.gate_opens ≡ true
  pub free_at_second : r.second ≡ not_found

inactive : (s : Stat) → lock_is_active s ≡ false → s ≡ not_found
unfolding lock_is_active
inactive present h = cc
inactive not_found h = refl
inactive os_error h = cc

abbrev pub IsForwarded : Reply → Type 0
IsForwarded (forwarded status) = Unit
IsForwarded _ = ⊥

module _ (r : Request) where
  -- What the last sections test.
  abbrev Opened : Reply → Type 0
  Opened a = IsForwarded a → (r.gate_opens ≡ true) × (r.second ≡ not_found)

  admitted-Opened : Opened (admitted r)
  unfolding admitted
  admitted-Opened =
      if_cases Opened r.gate_opens (if lock_is_active r.second then locked else forward r.upstream)
        (error 503)
        (λ o.
          if_cases Opened (lock_is_active r.second) locked (forward r.upstream) (λ t s. absurd s)
            (λ t s. (o, inactive r.second t)))
        (λ o s. absurd s)

  read_body-Whole :
      (n : ℕ) (b : Body) → IsForwarded (read_body n b r) → Whole n b × IsForwarded (admitted r)
  unfolding read_body
  read_body-Whole n timed_out =
      if_cases (λ a. IsForwarded a → Whole n timed_out × IsForwarded (admitted r)) (nat_beq n 0)
        (admitted r) (error 408)
        (λ t s.
          let same : 0 ≡ n = omega (arith, (nat_beq_iff n 0).0 t) in
          (subst (λ n. Whole n timed_out) same (empty timed_out), s))
        (λ t s. absurd s)
  read_body-Whole n (got k) =
      if_cases (λ a. IsForwarded a → Whole n (got k) × IsForwarded (admitted r))
        (not (nat_beq n 0) && not (nat_beq k n)) (error 400) (admitted r) (λ t s. absurd s)
        (λ t s. (got_whole t, s))
    where
      got_whole : (not (nat_beq n 0) && not (nat_beq k n)) ≡ false → Whole n (got k)
      got_whole t = elim (Bool-cases (nat_beq n 0)) [
        | inl z ↦
            let same : 0 ≡ n = omega (arith, (nat_beq_iff n 0).0 z) in
            subst (λ n. Whole n (got k)) same (empty (got k))
        | inr z ↦
            let e : nat_beq k n ≡ true = ground arith in
            subst (λ k. Whole n (got k)) (sym ((nat_beq_iff k n).0 e)) (full n)
      ]

  -- What the tests on the head of the request leave.
  abbrev Framed : Length → Reply → Type 0
  Framed l a =
      IsForwarded a
      → (n : ℕ) × (l ≡ number n)
        × (n ≤ max_body)
        × (r.transfer_encoding ≡ false)
        × Whole n r.body
        × IsForwarded (admitted r)

  framed-Framed : (l : Length) → Framed l (framed l r)
  unfolding framed
  framed-Framed invalid = λ s. absurd s
  framed-Framed negative = λ s. absurd s
  framed-Framed (number n) =
      if_cases (Framed (number n)) r.transfer_encoding (error 400) _ (λ t s. absurd s)
        (λ t.
          if_cases (Framed (number n)) (ltb max_body n) (error 413) (read_body n r.body r)
            (λ u s. absurd s)
            (λ u s.
              let w = read_body-Whole n r.body s in (n, refl, ltb_false→le _ _ u, t, w.0, w.1)))

  -- A request is forwarded only where the lock was absent both when it came and, under the gate, after
  -- its whole body had been read, with a plain length of at most 16 MiB.
  pub forwarded-Admitted : IsForwarded (handle r) → Admitted r
  unfolding handle
  forwarded-Admitted =
      if_cases (λ a. IsForwarded a → Admitted r) (lock_is_active r.first) locked (framed r.length r)
        (λ t s. absurd s)
        (λ t s.
          let (n, sized, small, plain, whole, rest) = framed-Framed r.length s in
          let o = admitted-Opened rest in
          record {
            free_at_first = inactive r.first t;
            size = n;
            sized = sized;
            small = small;
            plain = plain;
            whole = whole;
            opened = o.0;
            free_at_second = o.1;
          })

  forward_status-IsForwarded : (u : Upstream) → IsForwarded (forward u)
  unfolding forward
  forward_status-IsForwarded (answers status) = tt
  forward_status-IsForwarded (http_error code) = tt
  forward_status-IsForwarded unreachable = tt
