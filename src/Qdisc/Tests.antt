-- ===== src/Qdisc/Tests.antt =====
-- Runs of the disciplines, and their laws at inputs that meet their hypotheses.
use virtual_gw.Common.{
  ℕ, ◌-◌, ◌*◌, ◌/◌, ◌≡◌, refl, Bool, not, Option, none, some, [], arith, if◌then◌else◌, replicate,
}
use virtual_gw.Common.Int.{ℤ, pos}
use virtual_gw.Common.Text.{Text, codes, text_eq}
use virtual_gw.Qdisc.{ok, band, create_qdisc, Qdisc}
use virtual_gw.Hl.Params.{Regexp, Groups}
use virtual_gw.Hl.Numbers.{at_once, spaced, number_in, group_1}
use virtual_gw.Qdisc.Describe.{ReadsNumbers, describe, create_qdisc-describe}
use virtual_gw.Packets.{Npacket, PacketsRawQueue, new_queue, push, empty}
use virtual_gw.Qdisc.Band.{BandQdisc, delta_traffic, drop_late, can_pop}
use virtual_gw.Qdisc.Band.Late.{Cut, drop_late-Cut}
use virtual_gw.Qdisc.Band.Laws.{Charged, can_pop_charges, delta_traffic_exact}
use virtual_gw.Qdisc.Rloss.{RlossQdisc}
use virtual_gw.Qdisc.Rloss
use virtual_gw.Qdisc.Rloss.Laws.{Tossed, can_pop_tosses_once}

-- 1000 bytes a second, late after 100 ms; two packets of 114 bytes wait.
abbrev bucket : BandQdisc
bucket = record {
  rate = pos 1000;
  burst = pos 1500;
  quota = pos 10;
  max_delay = pos 100;
  last_ts = pos 1000;
}

abbrev packet : ℕ → ℕ → Npacket
packet i t = record { uid = pos i; in_time = pos t; bytes = replicate 114 0 }

abbrev waiting : PacketsRawQueue
waiting = push (push (new_queue 10240) (packet 1 1000)) (packet 2 1050)

can_pop_charges_example :
    (goes : Bool) × (d' : BandQdisc) × (q' : PacketsRawQueue) × (can_pop bucket (pos 1120) waiting
      ≡ some (goes, d', q'))
    × Charged bucket (pos 1120) waiting goes d' q'
can_pop_charges_example = can_pop_charges bucket (pos 1120) waiting (omega arith)

late_one_dropped :
    (q' : PacketsRawQueue) × (drop_late 3 bucket (pos 1120) waiting ≡ some q')
    × Cut bucket (pos 1120) waiting q'
unfolding push new_queue
late_one_dropped = drop_late-Cut 3 bucket (pos 1120) waiting (omega arith)

exact_tokens : delta_traffic bucket (pos 3500) ≡ pos ((3500 - 1000) * 1000 / 1000)
exact_tokens =
    delta_traffic_exact bucket 1000 3500 1000 refl refl (omega arith) (omega arith) (omega arith)

-- 1 MB a second over 3 seconds.
abbrev fast : BandQdisc
fast = record bucket { rate = pos 1000000 }

abbrev lossy : RlossQdisc
lossy = record { rate = pos 50; last_uid = pos 0 }

abbrev draws : ℕ → ℕ
draws i = 37 * i

can_pop_tosses_once_example :
    (d' : RlossQdisc) × (q' : PacketsRawQueue) × (used' : ℕ) × (Rloss.can_pop draws 0 lossy
        (pos 1120)
        waiting
      ≡ some (not (empty q'), d', q', used'))
    × Tossed draws 0 lossy waiting (d', q', used')
    × ((later : ℤ) → Rloss.can_pop draws used' d' later q' ≡ some (not (empty q'), d', q', used'))
can_pop_tosses_once_example = can_pop_tosses_once draws 0 lossy (pos 1120) waiting

-- A matcher for the description of a bucket.
abbrev shaped : Qdisc
shaped = band (record {
  rate = pos 8000;
  burst = pos 1500;
  quota = pos 3;
  max_delay = pos 20;
  last_ts = pos 77;
})

abbrev groups_of : Option Text → Option Groups
groups_of none = none
groups_of (some g) = some (λ i. g)

abbrev finds_numbers : Regexp
finds_numbers pattern subject =
    if text_eq pattern (codes "rate ([0-9]+)")
    then groups_of (number_in at_once (codes "rate ") subject)
    else if text_eq pattern (codes "burst +([0-9]+)")
    then groups_of (number_in spaced (codes "burst") subject)
    else if text_eq pattern (codes "max_delay +([0-9]+)")
    then groups_of (number_in spaced (codes "max_delay") subject)
    else groups_of (number_in at_once [] subject)

group_1-groups_of : (g : Option Text) → group_1 (groups_of g) ≡ g
group_1-groups_of none = refl
group_1-groups_of (some g) = refl

finds_numbers-ReadsNumbers : ReadsNumbers finds_numbers
unfolding text_eq
finds_numbers-ReadsNumbers = record {
  reads_plain = λ s. group_1-groups_of (number_in at_once [] s);
  reads_rate = λ s. group_1-groups_of (number_in at_once (codes "rate ") s);
  reads_burst = λ s. group_1-groups_of (number_in spaced (codes "burst") s);
  reads_max_delay = λ s. group_1-groups_of (number_in spaced (codes "max_delay") s);
}

create_qdisc-describe_example :
    create_qdisc finds_numbers (pos 5) (codes "band") (describe shaped)
    ≡ ok (
        band (record {
          rate = pos 8000;
          burst = pos 1500;
          quota = pos 0;
          max_delay = pos 20;
          last_ts = pos 5;
        }))
create_qdisc-describe_example =
    create_qdisc-describe finds_numbers (pos 5) shaped finds_numbers-ReadsNumbers
      ((8000, refl, omega arith), (1500, refl, omega arith), (20, refl, omega arith))
