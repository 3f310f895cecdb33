-- ===== src/Net/Callback.antt =====
-- The callbacks of Net/KaCallBack.h that Net/TcpConnection.h and Net/TcpServer.h keep. A callback is a
-- `std::function`: calling an empty one throws.
use ka_im.Prelude.{ℕ, Bool, true, false, ◌&&◌, List, [], ◌∷◌}

-- An empty function, a default one, which does nothing, `TcpServer::removeConnection`, or one of the
-- owner's.
pub data Callback : Type 0 where
  unset by_default removes_connection : Callback
  owners : ℕ → Callback

abbrev pub is_set : Callback → Bool
is_set c = elim c [ unset ↦ false | _ ↦ true ]

abbrev pub all_set : List Callback → Bool
all_set [] = true
all_set (cb ∷ cbs) = is_set cb && all_set cbs

-- Those of a connection, and what its constructor leaves.
pub record Callbacks : Type 0 where
  pub connection : Callback
  pub message : Callback
  pub write_complete : Callback
  pub close : Callback
  pub high_water_mark : Callback

abbrev pub no_callbacks : Callbacks
no_callbacks = record {
  connection = unset;
  message = unset;
  write_complete = unset;
  close = unset;
  high_water_mark = unset;
}

-- Those of a server, and what its constructor leaves.
pub record ServerCallbacks : Type 0 where
  pub connection : Callback
  pub message : Callback
  pub write_complete : Callback
  pub thread_init : Callback

abbrev pub default_callbacks : ServerCallbacks
default_callbacks = record {
  connection = by_default;
  message = by_default;
  write_complete = unset;
  thread_init = unset;
}

-- What `newConnection` sets on the connection that it has made.
abbrev pub install : ServerCallbacks → Callbacks → Callbacks
install s k = record k {
  connection = s.connection;
  message = s.message;
  write_complete = s.write_complete;
  close = removes_connection;
}
