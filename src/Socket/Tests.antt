-- ===== src/Socket/Tests.antt =====
-- kernel/socket.c at a table with one free slot.
use os.Base.{pos, minus_one, if◌then◌else◌, ◌==◌, true, false}
use os.Socket.{Sockets, sock_stream}

abbrev one_free : Sockets
one_free i = record {
  fd = if i == 3 then minus_one else pos i;
  kind = sock_stream;
  ip = 0;
  port = 80;
  connected = true;
  listening = false;
}
