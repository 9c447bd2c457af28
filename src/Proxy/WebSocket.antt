-- ===== src/Proxy/WebSocket.antt =====
-- The two copying loops of `handle_websocket` in src/proxy.rs, which are one function with the two
-- sides exchanged. The network is the list of outcomes that the loop meets, and the other tasks act
-- on the limiter between its attempts.
pub mod Laws
use oxidized_wall.Base.{
  ◌++◌, take, ip_eq, nat_eq, list_eq, ℕ, zero, suc, Bool, true, false, List, [], ◌∷◌, IpAddr, Bytes,
  length, nat_eqb, if◌then◌else◌,
}
use oxidized_wall.Bandwidth.Float.{Float64}
use oxidized_wall.Bandwidth.{Moment, TokenBucket, BandwidthLimiter, try_consume}
use oxidized_wall.Dict.{DashMap}

-- The outcome of a read under the idle timeout; at the end of the stream it is the empty chunk.
pub data Outcome : Type 0 where
  chunk : Bytes → Outcome
  failed timed_out : Outcome

-- The outcome of `write_all`: whole, or an error after the first bytes.
pub data Write : Type 0 where
  whole : Write
  broken : ℕ → Write

-- How a loop stands: before its next read, asleep for its tokens, or left.
pub data Status : Type 0 where
  reading asleep left : Status

module _ (R : Float64) (D : DashMap IpAddr (TokenBucket R)) where
  -- An attempt for tokens, with what the other tasks did to the limiter before it.
  pub record Turn : Type 0 where
    pub at : Moment
    pub others : BandwidthLimiter R D → BandwidthLimiter R D

  -- The limiter after the loop, what it wrote, and how it stands.
  pub record Copied : Type 0 where
    pub limiter : BandwidthLimiter R D
    pub written : Bytes
    pub status : Status

  module _ (remote_ip : IpAddr) (max_bw : ℕ) where
    -- The inner loop with a limit: the turns that are left, and whether the tokens were granted
    -- before the turns ended.
    unfoldable pub try_until :
        List Turn → ℕ → BandwidthLimiter R D → List Turn × BandwidthLimiter R D × Bool
    try_until [] n l = ([], l, false)
    try_until (turn ∷ turns) n l =
        let (l', granted) = try_consume R D turn.at remote_ip max_bw n (turn.others l) in
        elim granted [ true ↦ (turns, l', true) | false ↦ try_until turns n l' ]

    -- The inner loop.
    unfoldable pub await_tokens :
        List Turn → ℕ → BandwidthLimiter R D → List Turn × BandwidthLimiter R D × Bool
    await_tokens turns n l = if nat_eqb max_bw 0 then (turns, l, true) else try_until turns n l

    -- One loop, from the bytes it has written.
    unfoldable pub copy : List (Outcome × Write) → List Turn → BandwidthLimiter R D → Bytes → Copied
    copy [] turns l written = record { limiter = l; written = written; status = reading }
    copy ((failed, _) ∷ _) turns l written = record {
      limiter = l;
      written = written;
      status = left;
    }
    copy ((timed_out, _) ∷ _) turns l written = record {
      limiter = l;
      written = written;
      status = left;
    }
    copy ((chunk [], _) ∷ _) turns l written = record {
      limiter = l;
      written = written;
      status = left;
    }
    copy ((chunk (b ∷ bytes), outcome) ∷ more) turns l written =
        let (turns', l', granted) = await_tokens turns (length (b ∷ bytes)) l in
        elim granted [
          | false ↦ record { limiter = l'; written = written; status = asleep }
          | true ↦ elim outcome [
            | broken sent ↦ record {
              limiter = l';
              written = written ++ take sent (b ∷ bytes);
              status = left;
            }
            | whole ↦ copy more turns' l' (written ++ b ∷ bytes)
          ]
        ]
