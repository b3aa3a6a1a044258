-- ===== src/Session/Server/Panics.antt =====
-- When a line of a client stops the server.
use mchat.Runtime.{Runtime}
use mchat.Backend.Defs.{Backend}
use mchat.Session.State.{Reader}
use mchat.Session.Server.{Server}
