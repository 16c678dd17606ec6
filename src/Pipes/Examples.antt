-- ===== src/Pipes/Examples.antt =====
-- A pipe with two clients, after the first instance was made.
use sqlite_daemon.Prelude.{ℕ, ◌≡◌, ◌⊎◌, refl, true, arith}
use sqlite_daemon.Pipes.{
  closed, connecting, attached, refused, Pipes, no_instance, create_instance, open_pipe, creates,
  opens, Reach, here, next,
}
use sqlite_daemon.Pipes.Clients.{client_has_instance, second_client_refused}

abbrev one_instance : Pipes
one_instance = create_instance no_instance

created_reached : Reach no_instance one_instance
unfolding create_instance
created_reached = next here (creates refl)

abbrev one_client : Pipes
one_client = open_pipe one_instance 4 0

client_reached : Reach no_instance one_client
unfolding create_instance open_pipe
client_reached = next created_reached (opens 4 0 refl refl)

client_has_instance_example :
    ((d : ℕ) → one_client.client d ≡ attached 0 → d ≡ 4)
    × ((one_client.spawned 0 ≡ true)
        ⊎ ((one_client.acceptor ≡ connecting 0) ⊎ (one_client.instance_at 0 ≡ closed)))
unfolding create_instance open_pipe
client_has_instance_example = client_has_instance one_client 4 0 client_reached refl

second_client_refused_example :
    (v : Pipes) × Reach one_instance v × (v.client 4 ≡ attached 0) × (v.client 5 ≡ refused)
unfolding create_instance
second_client_refused_example =
    second_client_refused one_instance 4 5 0 created_reached (λ e. ground arith) refl refl refl
