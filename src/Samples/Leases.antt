-- ===== src/Samples/Leases.antt =====
-- Runs of core/mission/transports/local.py.
use jarvis.Prelude.{
  ℕ, String, [], ◌∷◌, none, some, ok, refl, nat_eq, string_eq, List, arith, ◌≡◌, ◌++◌, ◌*◌, member,
  ◌==◌, eq_iff, ◌∙◌,
}
use jarvis.Prelude.Dict.{get, put}
use jarvis.Transport.{Transport, opened, second, lease, subscribers_for_channel}
use jarvis.Transport.Leases.{Call, acquire, renew, release, send, after_all, lease-lease_exclusive}
use jarvis.Transport.Channels.{
  IsRegistered, IsSubscriberOf, waiting, publish_all, waiting-publish_all, IsDistinct, addressed,
}

abbrev pub leased : Transport
leased = record opened { leases = ("m", record { token = 7; expires_at = 10 * second }) ∷ [] }

lease-opened : lease 0 7 opened "m" 10 ≡ (ok (some 7), leased)
unfolding lease get put
lease-opened = refl

abbrev rivals : List Call
rivals = acquire 3 8 "m" 5 ∷ renew 4 "m" 7 10 ∷ release "m" 8 ∷ send "c" [] ∷ []

lease-lease_exclusive_example :
    lease 5 9 (after_all leased rivals) "m" 10 ≡ (ok none, after_all leased rivals)
lease-lease_exclusive_example =
    lease-lease_exclusive opened leased "m" 7 0 10 rivals 5 9 10 lease-opened (omega arith)
      (omega arith) (omega arith)

abbrev listening : Transport
listening = record opened {
  channels = ("c", 1 ∷ []) ∷ [];
  subscribers = 1 ∷ [];
  queues = (1, []) ∷ [];
}

listening-IsDistinct : (channel : String) → IsDistinct (subscribers_for_channel listening channel)
unfolding subscribers_for_channel get member
listening-IsDistinct channel = ground arith

listening-IsRegistered : IsRegistered listening
listening-IsRegistered = record { distinct = listening-IsDistinct }

listening-only : (c : String) → member 1 (subscribers_for_channel listening c) ≡ ("c" == c)
unfolding subscribers_for_channel get member
listening-only c = ground arith

listening-IsSubscriberOf : IsSubscriberOf listening "c" 1
listening-IsSubscriberOf = record {
  open_still = refl;
  sets = listening-IsDistinct;
  only = λ c. listening-only c ∙ eq_comm c;
}
  where
    eq_comm : (c : String) → ("c" == c) ≡ (c == "c")
    eq_comm c = ground (arith, eq_iff "c" c, eq_iff c "c")

abbrev letters : List (String × List ℕ)
letters = ("c", 65 ∷ []) ∷ ("d", 66 ∷ []) ∷ ("c", 67 ∷ []) ∷ []

waiting-publish_all_example :
    waiting (publish_all listening letters) 1 ≡ waiting listening 1 ++ addressed "c" letters
waiting-publish_all_example = waiting-publish_all listening "c" 1 letters listening-IsSubscriberOf
