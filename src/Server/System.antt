-- ===== src/Server/System.antt =====
-- All servers together, over one site.
use oxidized_wall.Base.{◌≡◌, true, List, ◌∷◌, ◌++◌, ip_eq, nat_eq, list_eq}
use oxidized_wall.Server.{Site, Server, Move}

pub record System : Type 0 where
  pub site : Site
  pub servers : List Server

-- A server takes a step, or the shutdown signal arrives.
pub data Step (x y : System) : Type 0 where
  turn :
      (before after : List Server) (s s' : Server)
      → Move x.site s y.site s'
      → x.servers ≡ before ++ s ∷ after
      → y.servers ≡ before ++ s' ∷ after
      → Step x y
  cancel : y ≡ record x { site = record x.site { cancelled = true } } → Step x y

pub data Reach (x : System) : System → Type 0 where
  here : Reach x x
  next : {y z : System} → Reach x y → Step y z → Reach x z
