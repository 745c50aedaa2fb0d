-- ===== src/Samples/Devnet.antt =====
-- The search for ports, on sockets that are all free and on sockets that are all taken.
use tempo_py.Prelude.{ℕ, ◌<◌, All, List, length, ◌≡◌, refl, [], ◌∷◌, true, false, ok}
use tempo_py.Devnet.Ports.{
  Sockets, blocks, needed, maximum, all_of, search_from, find_free_base_ports,
}
use tempo_py.Devnet.Ports.Laws.{Spaced, BlockIsFree, find_free_base_ports-eq-ok}

abbrev free : Sockets
free = record { ephemeral_port = λ i. 8000; can_bind = λ i p. true }

abbrev taken : Sockets
taken = record { ephemeral_port = λ i. 8000; can_bind = λ i p. false }

two_blocks : find_free_base_ports free 2 10 ≡ ok (8000 ∷ 8010 ∷ [])
unfolding find_free_base_ports search_from blocks needed maximum all_of
two_blocks = refl

abbrev bases_found : List ℕ
bases_found = 8000 ∷ 8010 ∷ []

find_free_base_ports-eq-ok_example :
    (j : ℕ) × (j < 200)
    × (length bases_found ≡ 2)
    × Spaced (free.ephemeral_port j) 10 bases_found
    × All (BlockIsFree free j) bases_found
find_free_base_ports-eq-ok_example = find_free_base_ports-eq-ok free 2 10 bases_found two_blocks
