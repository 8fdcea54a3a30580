-- ===== src/Adapters/Docker/Attempts.antt =====
-- tunnel_sync/adapters/docker.py: how a request ends.
use cf_docker_tunnel_sync.Base.{
  ◌⊎◌, ℕ, zero, suc, ◌+◌, ◌≤◌, Bool, true, false, ◌||◌, Option, none, some, List, [], ◌∷◌, ◌≡◌,
  refl, ap, inl, inr, arith, Bool-cases, ltb, leb,
}
use cf_docker_tunnel_sync.Adapters.Docker.{
  Body, nothing, invalid, json, Reply, response, timed_out, failed, not_utf8, decode_error, Result,
  ok, Docker, Trace, Run, power, report, parsed, answer, pause, after, attempts, request,
}

abbrev pub sum : List ℕ → ℕ
sum [] = 0
sum (n ∷ ns) = n + sum ns

abbrev pub latest : List Bool → Option Bool
latest [] = none
latest (b ∷ bs) = some b

abbrev pub is_ok : Result → Bool
is_ok (ok value) = true
is_ok _ = false

-- Docker was asked at most `most` times, the pauses and `spent` amount to `limit` at most, and the
-- report that was made last says whether there is a result, unless a text could not be decoded.
pub record Ends (most spent limit : ℕ) {W : Type 0} (t : Trace W) (result : Result) : Type 0 where
  pub few : t.asked ≤ most
  pub short : sum t.pauses + spent ≤ limit
  pub truthful : (result ≡ decode_error) ⊎ (latest t.reports ≡ some (is_ok result))

power-least : (n k : ℕ) → power n ≤ power (n + k)
unfolding power
power-least n zero = rw (plus_zero n) (omega arith)
  where
    plus_zero : (n : ℕ) → (n + 0) ≡ n
    plus_zero n = omega arith
power-least n (suc k) = rw (plus_suc n k) (omega (arith, power-least n k))
  where
    plus_suc : (n k : ℕ) → (n + suc k) ≡ suc (n + k)
    plus_suc n k = omega arith

power_double : (n : ℕ) → power (suc n) ≡ power n + power n
unfolding power
power_double n = refl

sum_suc : (n k : ℕ) → power (n + suc k) ≡ power (suc n + k)
sum_suc n k = ap power plus
  where
    plus : (n + suc k) ≡ (suc n + k)
    plus = omega arith

power_first : power 0 ≡ 1
unfolding power
power_first = refl

sum_first : (n : ℕ) → power (0 + n) ≡ power n
sum_first n = ap power plus
  where
    plus : (0 + n) ≡ n
    plus = omega arith

module _ (docker : Docker) where
  pause-sum :
      (left attempt : ℕ) (t : Run docker)
      → sum (pause docker left attempt t).pauses ≤ power attempt + sum t.pauses
  unfolding pause
  pause-sum zero attempt t = omega arith
  pause-sum (suc left) attempt t = omega arith

  pause-asked : (left attempt : ℕ) (t : Run docker) → (pause docker left attempt t).asked ≡ t.asked
  unfolding pause
  pause-asked zero attempt t = refl
  pause-asked (suc left) attempt t = refl

  parsed-Ends :
      (most spent limit status : ℕ) (body : Body) (t : Run docker)
      → t.asked ≤ most
      → sum t.pauses + spent ≤ limit
      → Ends most spent limit (parsed docker status body t).0 (parsed docker status body t).1
  unfolding parsed report
  parsed-Ends most spent limit status nothing t few short = record {
    few = few;
    short = short;
    truthful = inr refl;
  }
  parsed-Ends most spent limit status invalid t few short = record {
    few = few;
    short = short;
    truthful = inr refl;
  }
  parsed-Ends most spent limit status (json value) t few short = record {
    few = few;
    short = short;
    truthful = inr refl;
  }

  answer-Ends :
      (most spent limit status : ℕ) (body : Body) (t : Run docker)
      → t.asked ≤ most
      → sum t.pauses + spent ≤ limit
      → Ends most spent limit (answer docker status body t).0 (answer docker status body t).1
  unfolding answer report
  answer-Ends most spent limit status body t few short =
      elim (Bool-cases (ltb status 200 || leb 300 status)) [
        | inl e ↦ rw e (record { few = few; short = short; truthful = inr refl })
        | inr e ↦ rw e (parsed-Ends most spent limit status body t few short)
      ]

  -- What is left of the loop after a failed attempt.
  retry-Ends :
      (left attempt : ℕ) (again : Run docker → Run docker × Result) (t : Run docker)
      → ((t' : Run docker)
          → Ends
              (t'.asked + left)
              (power (suc attempt))
              (sum t'.pauses + power (suc attempt + left))
              (again t').0
              (again t').1)
      → let r = again (pause docker left attempt t) in
        Ends (t.asked + left) (power attempt) (sum t.pauses + power (suc attempt + left)) r.0 r.1
  retry-Ends left attempt again t h =
      let next = h (pause docker left attempt t) in
      record {
        few = omega (arith, next.few, pause-asked left attempt t);
        short = omega (arith, next.short, pause-sum left attempt t, power_double attempt);
        truthful = next.truthful;
      }

  after-Ends :
      (left attempt : ℕ) (again : Run docker → Run docker × Result) (t : Run docker)
      (reply : docker.World × Reply)
      → ((t' : Run docker)
          → Ends
              (t'.asked + left)
              (power (suc attempt))
              (sum t'.pauses + power (suc attempt + left))
              (again t').0
              (again t').1)
      → let r = after docker left attempt again t reply in
        Ends (t.asked + left) (power attempt) (sum t.pauses + power (suc attempt + left)) r.0 r.1
  unfolding after report
  after-Ends left attempt again t (w, response status body) h =
      answer-Ends (t.asked + left) (power attempt) _ status body (record t { world = w })
        (omega arith) (omega (arith, power-least attempt (suc left), sum_suc attempt left))
  after-Ends left attempt again t (w, not_utf8) h = record {
    few = omega arith;
    short = omega (arith, power-least attempt (suc left), sum_suc attempt left);
    truthful = inl refl;
  }
  after-Ends left attempt again t (w, timed_out e) h = retry-Ends left attempt again _ h
  after-Ends left attempt again t (w, failed e) h = retry-Ends left attempt again _ h

  attempts-Ends :
      (retries left attempt : ℕ) (t : Run docker)
      → let r = attempts docker retries left attempt t in
        Ends (t.asked + left) (power attempt) (sum t.pauses + power (attempt + left)) r.0 r.1
  unfolding attempts report
  attempts-Ends retries zero attempt t = record {
    few = omega arith;
    short = omega (arith, power-least attempt 0);
    truthful = inr refl;
  }
  attempts-Ends retries (suc left) attempt t =
      let next =
        after-Ends left attempt (attempts docker retries left (suc attempt))
          (record t { asked = t.asked + 1 }) (docker.send t.world)
          (attempts-Ends retries left (suc attempt)) in
      record {
        few = omega (arith, next.few);
        short = omega (arith, next.short, sum_suc attempt left);
        truthful = next.truthful;
      }

  -- A request, whatever Docker does, ends after at most as many attempts as there are retries, and after
  -- pauses of less than two to the number of retries tenths of a second in all; the report on the
  -- connection that it makes last says whether it has a result, unless an answer could not be decoded.
  pub request-Ends :
      (reachable : Bool) (retries : ℕ) (w : docker.World)
      → let r = request docker reachable retries w in Ends retries 1 (power retries) r.0 r.1
  unfolding request report
  request-Ends true retries w =
      let r =
        attempts-Ends retries retries 0
          (record { world = w; asked = 0; reports = []; pauses = [] }) in
      record {
        few = omega (arith, r.few);
        short = omega (arith, r.short, power_first, sum_first retries);
        truthful = r.truthful;
      }
  request-Ends false retries w = record {
    few = omega arith;
    short = omega (arith, power_first, sum_first retries, power-least 0 retries);
    truthful = inr refl;
  }
