-- ===== src/Startup/Examples.antt =====
-- A daemon that starts over a socket that process 9 has left.
use sqlite_daemon.Prelude.{◌≡◌, refl, some}
use sqlite_daemon.Startup.{
  Machine, listening, acquire, clear_path, bind_socket, acquires, clears, binds, Reach, here, next,
  booted,
}
use sqlite_daemon.Startup.Listens.{socket_names_listener, bind_socket_listens}

abbrev about_to_bind : Machine
about_to_bind = clear_path 0 (acquire 0 (booted (some 9)))

about_to_bind_reached : Reach (booted (some 9)) about_to_bind
unfolding acquire clear_path
about_to_bind_reached = next (next here (acquires 0 refl (λ q h. h))) (clears 0 refl)

bind_socket_listens_example :
    ((bind_socket 0 about_to_bind).socket ≡ some 0)
    × ((bind_socket 0 about_to_bind).progress 0 ≡ listening)
unfolding acquire clear_path
bind_socket_listens_example =
    bind_socket_listens (some 9) about_to_bind 0 about_to_bind_reached refl

socket_names_listener_example : (bind_socket 0 about_to_bind).socket ≡ some 0
unfolding acquire clear_path bind_socket
socket_names_listener_example =
    socket_names_listener (some 9) (bind_socket 0 about_to_bind) 0
      (next about_to_bind_reached (binds 0 refl)) refl
