-- ===== src/Http/Message.antt =====
-- `hyper::Method`.
use oxidized_wall.Base.{Str}

pub data Method : Type 0 where
  options get post put delete head trace connect patch : Method
  extension : Str → Method
