-- ===== src/Tests/Reading.antt =====
-- Readers that wait for a read index, under one context and under two.
use stellmap_service.Base.{◌<◌, ◌≡◌, refl, [], ◌∷◌, some, ok, err}
use stellmap_service.Text.{Bytes, eqb, codes}
use stellmap_service.GoMap.{lookup, insert}
use stellmap_service.Raftnode.Waiters.{
  Waiters, no_waiters, register, ReadState, receive, handle_read_states, remove_waiter, answer,
  answer_found, send, close, blocks,
}
use stellmap_service.Raftnode.Waiters.Answers.{
  no_waiters-IsValid, register-IsValid, receive-handle_read_states, answered, finished,
}
use stellmap_service.Raftnode.Waiters.Shared.{
  here, next, registers, Reach_never_stuck, register_again_blocks, give_up_wakes_other,
}

abbrev key_a : Bytes
key_a = codes "a"

-- one reader of key `a`
abbrev one_reader : Waiters
one_reader = (register key_a no_waiters).0

abbrev state_5 : ReadState
state_5 = record { index = 5; request_ctx = key_a }

one_reader_waits : lookup key_a one_reader.waiters ≡ some 0
unfolding register no_waiters lookup insert eqb
one_reader_waits = refl

state_5_handled :
    handle_read_states (state_5 ∷ []) one_reader ≡ ok (finished key_a 0 (answered 5) one_reader)
unfolding handle_read_states answer_found answer send close register no_waiters lookup insert eqb
state_5_handled = refl

receive-handle_read_states_example :
    receive ((finished key_a 0 (answered 5) one_reader).channels 0) ≡ ok 5
unfolding eqb
receive-handle_read_states_example =
    receive-handle_read_states (state_5 ∷ []) one_reader key_a
      (register-IsValid key_a no_waiters no_waiters-IsValid) one_reader_waits state_5_handled

Reach_never_stuck_example :
    ((w' : Waiters) × (handle_read_states (state_5 ∷ []) one_reader ≡ ok w'))
    × ((w' : Waiters) × (remove_waiter key_a one_reader ≡ ok w'))
Reach_never_stuck_example = Reach_never_stuck key_a (state_5 ∷ []) (next here (registers key_a))

register_again_blocks_example : receive ((register key_a one_reader).0.channels 0) ≡ err blocks
register_again_blocks_example =
    register_again_blocks key_a (next here (registers key_a)) one_reader_waits here

-- Both readers register, the second one right behind the first.
abbrev two_readers : Waiters
two_readers = (register key_a one_reader).0

second_waits : lookup key_a two_readers.waiters ≡ some 1
unfolding register lookup eqb insert no_waiters
second_waits = refl

give_up_wakes_other_example :
    (0 < 1)
    × ((v' : Waiters) × (remove_waiter key_a two_readers ≡ ok v')
        × (receive (v'.channels 1) ≡ ok 0))
unfolding register no_waiters
give_up_wakes_other_example = give_up_wakes_other key_a here here here second_waits
