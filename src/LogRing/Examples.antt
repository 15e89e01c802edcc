-- ===== src/LogRing/Examples.antt =====
-- Pushes into a small ring of components/journal/log_ring.cpp.
use lost_swan_firmware.Common.{◌≡◌, ℕ, refl, true, false, List, [], ◌∷◌, arith}
use lost_swan_firmware.LogRing.{LogRing, push, clear, trim, push_text, kept_text}
use lost_swan_firmware.LogRing.Lines.{Represents}
use lost_swan_firmware.LogRing.Reader.{read}
use lost_swan_firmware.LogRing.Reader.Output.{printed}
use lost_swan_firmware.LogRing.Reader.Stored.{newest}
use lost_swan_firmware.LogRing.Reader.Capped.{read-Represents}
use lost_swan_firmware.LogRing.Push.{lines_after, push-Represents, clear-Represents}

abbrev small_ring : LogRing
small_ring = record {
  buf = λ i. 0;
  has_storage = true;
  cap = 12;
  head = 5;
  tail = 5;
  used = 0;
  lines = 0;
  dropped = 0;
}

-- "up", a line end; "down", a line end
abbrev up : List ℕ
up = 117 ∷ 112 ∷ 10 ∷ []

abbrev went_down : List ℕ
went_down = 100 ∷ 111 ∷ 119 ∷ 110 ∷ 13 ∷ 10 ∷ []

cleared : Represents (clear small_ring) []
cleared = clear-Represents small_ring (omega arith)

push-Represents_example :
    Represents (push (clear small_ring) went_down false) (lines_after 12 [] went_down false)
unfolding clear
push-Represents_example =
    push-Represents (clear small_ring) [] went_down false refl (omega arith) cleared

abbrev two_pushed : LogRing
two_pushed = push (push (clear small_ring) up false) went_down false

-- Both lines fit the twelve bytes.
two_pushed-Represents :
    Represents two_pushed (lines_after 12 (lines_after 12 [] up false) went_down false)
unfolding clear push trim push_text kept_text
two_pushed-Represents =
    push-Represents (push (clear small_ring) up false) (lines_after 12 [] up false) went_down false
      refl (omega arith) (push-Represents (clear small_ring) [] up false refl (omega arith) cleared)

read-Represents_example :
    read two_pushed 8
    ≡ printed (newest 8 (lines_after 12 (lines_after 12 [] up false) went_down false))
read-Represents_example =
    read-Represents two_pushed (lines_after 12 (lines_after 12 [] up false) went_down false) 8
      two_pushed-Represents
