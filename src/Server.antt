-- ===== src/Server.antt =====
-- `http_server` and `https_server` of src/server.rs: the accept loops, the tasks that they spawn and
-- the semaphore that they share, as a step relation. The scheduler, the sockets and the clients
-- choose the steps. Nothing closes the semaphore, so `acquire_owned` has no error.
pub mod System
pub mod Permits
pub mod Shutdown
pub mod Admission
use oxidized_wall.Base.{
  ℕ, zero, suc, ◌+◌, ◌-◌, ◌*◌, ◌/◌, ◌%◌, ◌^◌, ◌≤◌, ◌<◌, String, ◌≡◌, refl, sym, ap, ◌∙◌, ◌≢◌, ◌↔◌,
  ◌⊎◌, inl, inr, Bool, true, false, not, ◌&&◌, ◌||◌, Option, none, some, List, [], ◌∷◌, ◌++◌, map,
  arith, Eq, ◌==◌, ==_iff, ==_refl, ip_eq, nat_eq, list_eq, IpAddr, Str, Bytes, codes,
  if◌then◌else◌, ltb, leb, nat_eqb, Bool-cases, Option-cases, zero-or-pos, opt_map, and_then,
  unwrap_or, or_else, is_err, is_some, head, is_empty, count_if, replicate, >>=-eq-ok, Result, ok,
  err, ◌>>=◌, ◌>>◌, length-append, starts_with-append, starts_with-split, lower_char, length,
  get_elem?, get_elem?-some, any, All, Instant, Duration, from_secs, duration_since, starts_with,
  contains, to_ascii_lowercase, is_control, as_bytes, encode_char, utf8_len, from_utf8_lossy,
}
use oxidized_wall.Ban.{BanManager}
use oxidized_wall.Ban
use oxidized_wall.Config.{Config}
use oxidized_wall.Proxy.{SocketAddr}

-- Where the loop of a server stands: at its `select!`, at `acquire_owned` with a connection in hand,
-- at the last `join_next` loop, or returned.
pub data Listening : Type 0 where
  accepting : Listening
  acquiring : SocketAddr → Listening
  draining : Listening
  stopped : Listening

-- Where a task of `conn_set` stands: in the TLS handshake, serving requests, shutting down after the
-- cancellation, or finished and not yet joined. All but the last hold a permit.
pub data Stage : Type 0 where
  handshake serving closing finished : Stage

pub record Server : Type 0 where
  pub tls : Bool
  pub listening : Listening
  pub conn_set : List Stage

-- What the servers share.
pub record Site : Type 0 where
  pub permits : ℕ
  pub cancelled : Bool
  pub bans : BanManager

-- The first stage of a task.
unfoldable pub first_stage : Bool → Stage
first_stage true = handshake
first_stage false = serving

-- What hyper's builder is set to; times are in seconds.
pub record Builder : Type 0 where
  pub header_read_timeout : ℕ
  pub max_headers : ℕ
  pub keep_alive_interval : ℕ
  pub keep_alive_timeout : ℕ
  pub max_concurrent_streams : ℕ
  pub max_header_list_size : ℕ

-- `as u32` keeps the low 32 bits.
unfoldable pub configure_builder : Config → Builder
configure_builder config =
    let t = config.timeout in
    let l = config.limit in
    record {
      header_read_timeout = t.c_header_read;
      max_headers = l.max_header_count;
      keep_alive_interval = t.c_keep_alive_idle;
      keep_alive_timeout = t.c_keep_alive_timeout;
      max_concurrent_streams = l.c_h2_max_streams;
      max_header_list_size = l.max_header_size % 2 ^ 32;
    }

-- What the loop does with an outcome of `accept`, `none` being its error: the list of bans after the
-- check, and where the loop goes on.
unfoldable pub on_accept : Instant → Option SocketAddr → BanManager → BanManager × Listening
on_accept now none bans = (bans, accepting)
on_accept now (some remote_addr) bans =
    let (bans', banned) = Ban.check now remote_addr.ip bans in
    (bans', if banned then accepting else acquiring remote_addr)

-- A step of a task, with what it does to the permits and the bans.
pub data Task (site : Site) : Stage → Site → Stage → Type 0 where
  shaken : Task site handshake site serving
  -- The handshake fails or takes longer than `c_tls_handshake`.
  refused : Task site handshake (record site { permits = suc site.permits }) finished
  -- A request is handled, which may punish.
  handled : (bans : BanManager) → Task site serving (record site { bans = bans }) serving
  ended : Task site serving (record site { permits = suc site.permits }) finished
  told : site.cancelled ≡ true → Task site serving site closing
  handled_last : (bans : BanManager) → Task site closing (record site { bans = bans }) closing
  closed : Task site closing (record site { permits = suc site.permits }) finished

-- A step of one server.
pub data Move (site : Site) (s : Server) (site' : Site) (s' : Server) : Type 0 where
  stop :
      site.cancelled ≡ true
      → s.listening ≡ accepting
      → site' ≡ site
      → s' ≡ record s { listening = draining }
      → Move site s site' s'
  accept :
      (now : Instant) (res : Option SocketAddr)
      → s.listening ≡ accepting
      → site' ≡ record site { bans = (on_accept now res site.bans).0 }
      → s' ≡ record s { listening = (on_accept now res site.bans).1 }
      → Move site s site' s'
  acquire :
      (remote_addr : SocketAddr) (n : ℕ)
      → s.listening ≡ acquiring remote_addr
      → site.permits ≡ suc n
      → site' ≡ record site { permits = n }
      → s' ≡ record s { listening = accepting; conn_set = first_stage s.tls ∷ s.conn_set }
      → Move site s site' s'
  run :
      (before after : List Stage) (stage stage' : Stage)
      → Task site stage site' stage'
      → s.conn_set ≡ before ++ stage ∷ after
      → s' ≡ record s { conn_set = before ++ stage' ∷ after }
      → Move site s site' s'
  join :
      (before after : List Stage)
      → (s.listening ≡ accepting) ⊎ (s.listening ≡ draining)
      → s.conn_set ≡ before ++ finished ∷ after
      → site' ≡ site
      → s' ≡ record s { conn_set = before ++ after }
      → Move site s site' s'
  finish :
      s.listening ≡ draining
      → s.conn_set ≡ []
      → site' ≡ site
      → s' ≡ record s { listening = stopped }
      → Move site s site' s'
