-- ===== src/Tests/Pools.antt =====
-- The pools of the driver: a connection is used again, and another password gets another one.
use data_mate.Base.{ℕ, true, false, List, [], ◌∷◌, Text, bytes, All, arith}
use data_mate.Pools.{Op, Event, new_driver, play}
use data_mate.Pools.Framing.{IsShort}
use data_mate.Pools.Kept.{IsOrderly, play-IsOrderly}
use data_mate.Pools.Access.{HasOwn, IsKeyed, play-HasOwn}

abbrev AllGo : List Text → Type 0
AllGo vs = All IsShort vs

-- The hash is the text itself.
abbrev plain : Text → Text
plain t = t

keyed : IsKeyed plain AllGo
keyed = record { short = λ vs h. h; apart = λ vs ws g h e. e }

abbrev op_of : ℕ → Text → Op
op_of k password = record { number = k; values = bytes "r" ∷ password ∷ [] }

-- Two operations, one after the other, and a third with another password.
abbrev events : List Event
events =
    Event.enter [] (bytes "main") (op_of 1 (bytes "a"))
    ∷ Event.slot 0 1
    ∷ Event.look (λ c. false) 0 1
    ∷ Event.dialed true 7 0 1
    ∷ Event.release true 0 1
    ∷ Event.enter [] (bytes "main") (op_of 2 (bytes "a"))
    ∷ Event.slot 0 2
    ∷ Event.look (λ c. false) 0 2
    ∷ Event.enter [] (bytes "main") (op_of 3 (bytes "b"))
    ∷ Event.slot 1 3
    ∷ Event.look (λ c. false) 1 3
    ∷ Event.dialed true 8 1 3
    ∷ []

short : (k : ℕ) (c : ℕ) → AllGo (op_of k (c ∷ [])).values
short k c = (omega arith, (omega arith, tt))

play-IsOrderly_example : IsOrderly (play plain events new_driver)
play-IsOrderly_example = play-IsOrderly plain events

play-HasOwn_example : All HasOwn (play plain events new_driver).pools
play-HasOwn_example =
    play-HasOwn plain AllGo keyed events (short 1 97, (short 2 97, (short 3 98, tt)))
