-- ===== src/Net/Tests.antt =====
-- Runs of Net/ on small inputs.
use ka_im.Prelude.Int.{pos}
use ka_im.Prelude.{ℕ, suc, ◌*◌, ◌/◌, ◌%◌, ◌≤◌, ◌≡◌, refl, true, [], ◌∷◌, some, map, copies, arith}
use ka_im.Net.Buffer.{Buffer, append}
use ka_im.Net.Buffer.Inv.{IsValid}
use ka_im.Net.Buffer.Contents.{contents, contents-append}
use ka_im.Net.Buffer.Search.{find_crlf_from}
use ka_im.Net.Channel.{KaChannel, is_writing}
use ka_im.Net.Channel
use ka_im.Net.Poller.{
  KaPoller, CtlCall, ctl_add, channel_update, poll, ready, enables_reading, enables_writing,
  disables_all, removes,
}
use ka_im.Net.Poller
use ka_im.Net.LoopPool.{LoopPool}
use ka_im.Net.LoopPool
use ka_im.Net.LoopPool.Rounds.{picks}
use ka_im.Net.LoopPool.Shares.{shares, picks-shares}
use ka_im.Net.Poller.Fresh.{run_fresh, Call, World}
use ka_im.Net.Poller.Fresh

-- Twelve bytes, with 1 and 2 to read and room for two more.
abbrev two : Buffer
two = record {
  buffer = 0 ∷ 0 ∷ 0 ∷ 0 ∷ 0 ∷ 0 ∷ 0 ∷ 0 ∷ 1 ∷ 2 ∷ 0 ∷ 0 ∷ [];
  read_index = 8;
  write_index = 10;
}

two-IsValid : IsValid two
two-IsValid = record {
  ordered = omega arith;
  inside = omega arith;
  header = omega arith;
  bounded = omega arith;
}

contents-append_example :
    IsValid (append two (3 ∷ 4 ∷ [])) × (contents (append two (3 ∷ 4 ∷ [])) ≡ 1 ∷ 2 ∷ 3 ∷ 4 ∷ [])
contents-append_example = contents-append {b = two} (3 ∷ 4 ∷ []) two-IsValid (omega arith)

-- One byte leaves room, so it is lost.
append_loses : contents (append two (3 ∷ [])) ≡ 1 ∷ 2 ∷ []
unfolding append
append_loses = refl

run_fresh_example :
    (Fresh.run
      ((Poller.make (pos 4)), λ a. Channel.make a 5 a)
      (record { address = 7; answer = true; op = enables_reading }
        ∷ record { address = 7; answer = true; op = disables_all }
        ∷ [])).0
    ≡ (Poller.make (pos 4))
run_fresh_example =
    run_fresh (Poller.make (pos 4)) (λ a. Channel.make a 5 a)
      (record { address = 7; answer = true; op = enables_reading }
        ∷ record { address = 7; answer = true; op = disables_all }
        ∷ [])
      (λ _. refl) (λ _. refl)

-- A started pool of three loops.
abbrev three : LoopPool
three = record LoopPool.make {
  base_loop = some 1;
  started = true;
  number_threads = 3;
  loops = 11 ∷ 12 ∷ 13 ∷ [];
}

-- Five calls: one whole round and two loops more.
picks-shares_example :
    (picks 5 three ≡ (map some (shares (5 / 3) (5 % 3) three.loops), record three { next = 5 % 3 }))
    × ((l : ℕ)
        → ((5 / 3) * copies l three.loops ≤ copies l (shares (5 / 3) (5 % 3) three.loops))
          × (copies l (shares (5 / 3) (5 % 3) three.loops) ≤ suc (5 / 3) * copies l three.loops))
picks-shares_example = picks-shares 5 three refl refl (omega arith)

five_picks : shares (5 / 3) (5 % 3) three.loops ≡ 11 ∷ 12 ∷ 13 ∷ 11 ∷ 12 ∷ []
five_picks = refl

-- Two bytes, a line end of two bytes, and one byte more.
abbrev line : Buffer
line = record {
  buffer = 0 ∷ 0 ∷ 0 ∷ 0 ∷ 0 ∷ 0 ∷ 0 ∷ 0 ∷ 71 ∷ 72 ∷ 13 ∷ 10 ∷ 73 ∷ [];
  read_index = 8;
  write_index = 13;
}

line-IsValid : IsValid line
line-IsValid = record {
  ordered = omega arith;
  inside = omega arith;
  header = omega arith;
  bounded = omega arith;
}

find_crlf_from_9 : find_crlf_from line 9 ≡ some 10
unfolding find_crlf_from
find_crlf_from_9 = refl
