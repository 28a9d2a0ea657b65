-- ===== src/Mailbox.antt =====
-- lib/mailbox/mailbox.c: a message to the video core and the wait for its answer.
use oscs25_labs.Base.{ℕ, ◌+◌, ◌-◌, ◌%◌, ◌^◌, Option, none, some, List, [], ◌∷◌, ◌==◌, if◌then◌else◌}

abbrev channel_number : ℕ
channel_number = 8

-- The address without its low four bits, with the channel in their place.
unfoldable pub mailbox_message : (mailbox_addr : ℕ) → ℕ
mailbox_message mailbox_addr = mailbox_addr % 2 ^ 32 - mailbox_addr % 2 ^ 4 + channel_number

-- `received` are the words that are read from the mailbox, one after each message sent. The loop goes
-- on until the message comes back; `none` is a wait for a further word.
unfoldable pub mailbox_loop : (received : List ℕ) → (message : ℕ) → Option ℕ
mailbox_loop [] message = none
mailbox_loop (recv ∷ received) message =
    let rest = mailbox_loop received message in if message == recv then some 1 else rest

unfoldable pub mailbox_call : (received : List ℕ) → (mailbox_addr : ℕ) → Option ℕ
mailbox_call received mailbox_addr = mailbox_loop received (mailbox_message mailbox_addr)
