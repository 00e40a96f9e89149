-- ===== src/Muduo.antt =====
-- What ProxyServer/Tunnel.h and the callbacks of ProxyServer/ProxyServer.cpp ask of muduo, which is
-- not part of the repository. A connection is a number, and so are a loop and a tunnel with its
-- TcpClient. The calls are written down, the last one first. What muduo and the peers answer is the
-- parameter `Net`, which may depend on all calls so far; a question is a call too, so that the same
-- question can have another answer the next time.
use enhanced_proxy.Common.{ℕ, Bool, Option, List, Str}

-- `Tunnel::ServerClient`
pub data ServerClient : Type 0 where
  server client : ServerClient

-- `send_object c d n` is `send` of the first `n` bytes of the Buffer object of `d` itself.
-- A write-complete callback is the tunnel and the end that it is bound to, or none.
pub data Call : Type 0 where
  looks set_tcp_no_delay start_read stop_read shutdown force_close_with_delay retrieve_all :
      ℕ → Call
  connect disconnect : ℕ → Call
  set_connection_callback set_message_callback : ℕ → Call
  reset_connection_callback reset_message_callback : ℕ → Call
  send : ℕ → Str → Call
  send_object : ℕ → ℕ → ℕ → Call
  retrieve : ℕ → ℕ → Call
  set_context : ℕ → Option ℕ → Call
  set_high_water_mark_callback : ℕ → ℕ → ServerClient → Call
  set_write_complete_callback : ℕ → Option (ℕ × ServerClient) → Call

-- `connected`, `getContext`, the bytes in the input buffer, the number of bytes in the output
-- buffer, and the clock; `getLoop` is fixed.
pub record Net : Type 0 where
  pub connected : List Call → ℕ → Bool
  pub context : List Call → ℕ → Option ℕ
  pub input : List Call → ℕ → Str
  pub output : List Call → ℕ → ℕ
  pub time : List Call → ℕ
  pub io_loop : ℕ → ℕ
