-- ===== src/Esim/Dialogues.antt =====
-- Dialogues with a card through the theorems on its commands.
use esp32c3_sms_gateway.Prelude.{ℕ, ◌≡◌, ◌⊎◌, refl, arith, none, some, List, [], ◌∷◌, true}
use esp32c3_sms_gateway.Prelude.Result.{EspErr, ok, err}
use esp32c3_sms_gateway.Prelude.Text.{ascii, decimal, decimal_digits}
use esp32c3_sms_gateway.Modem.Dialogue.{Reply, Modem, send}
use esp32c3_sms_gateway.Esim.Channel.{open_channel, parse_channel}
use esp32c3_sms_gateway.Esim.Apdu.Reading.{card_line}
use esp32c3_sms_gateway.Esim.Es10x.{Answer, es10x_command}
use esp32c3_sms_gateway.Esim.Es10x.Closing.{rounds_needed}
use esp32c3_sms_gateway.Esim.Es10x.Rounds.{EndsIn, es10x_command-EndsIn}
use esp32c3_sms_gateway.Esim.Es10x.Pieces.{Carries, whole_bytes, es10x_command-joined}
use esp32c3_sms_gateway.Esim.Tlv.{append_tlv, append_tag, append_length, tag_bytes, length_bytes}
use esp32c3_sms_gateway.Esim.Bcd.{iccid_to_bcd, all_digits, bcd_bytes, join_nibbles}
use esp32c3_sms_gateway.Esim.Profile.{build_profile_identifier, standard_request, refresh_tlv}
use esp32c3_sms_gateway.Esim.Operation.Answers.{result_answer}
use esp32c3_sms_gateway.Esim.Cards.{target_aid, esim_manager_switch_profile}
use esp32c3_sms_gateway.Esim.Cards.Switch.{esim_manager_switch_profile-result_answer}

-- `atoi` on the texts of these dialogues, which hold the channel 1.
abbrev one_atoi : List ℕ → ℕ
one_atoi s = 1

abbrev good_reply : List ℕ → Reply
good_reply s = record { status = none; text = s }

abbrev opened_reply : Reply
opened_reply = good_reply (ascii "+CCHO: 1")

-- An answer of the card as the modem prints it.
abbrev card_reply : Answer → Reply
card_reply a = good_reply (card_line (ascii " 1") (whole_bytes a) (ascii "\"OK"))

abbrev first_piece : Answer
first_piece = record { bytes = 0xbf ∷ 0x3e ∷ []; sw1 = 0x61; sw2 = 0x02 }

abbrev last_piece : Answer
last_piece = record { bytes = 0x01 ∷ 0x5a ∷ []; sw1 = 0x90; sw2 = 0x00 }

abbrev two_pieces : Modem
two_pieces = record {
  answers = opened_reply ∷ card_reply first_piece ∷ card_reply last_piece ∷ good_reply [] ∷ [];
  sent = [];
}

first_piece-Carries : Carries (card_reply first_piece) first_piece
first_piece-Carries = record {
  good = refl;
  number = ascii " 1";
  ends = ascii "\"OK";
  line = refl;
  no_comma = (ground arith, (ground arith, tt));
  no_hex = (refl, (refl, (refl, tt)));
  small = (omega arith, (omega arith, (omega arith, (omega arith, tt))));
}

last_piece-Carries : Carries (card_reply last_piece) last_piece
last_piece-Carries = record {
  good = refl;
  number = ascii " 1";
  ends = ascii "\"OK";
  line = refl;
  no_comma = (ground arith, (ground arith, tt));
  no_hex = (refl, (refl, (refl, tt)));
  small = (omega arith, (omega arith, (omega arith, (omega arith, tt))));
}

es10x_command-EndsIn_example :
    let (opened, after) = open_channel one_atoi two_pieces in
    let (r, later) = es10x_command 1 one_atoi (0xbf ∷ []) two_pieces in
    ((e : EspErr) × (opened ≡ err e) × (r ≡ err e) × (later ≡ after))
    ⊎ ((channel : List ℕ) × (opened ≡ ok channel)
        × EndsIn 1 (rounds_needed (0xbf ∷ []) after) channel after (r, later))
es10x_command-EndsIn_example = es10x_command-EndsIn 1 one_atoi (0xbf ∷ []) two_pieces

es10x_command-joined_example :
    (es10x_command 1 one_atoi (0xbf ∷ []) two_pieces).0 ≡ ok (0xbf ∷ 0x3e ∷ 0x01 ∷ 0x5a ∷ [])
unfolding open_channel send parse_channel decimal decimal_digits
es10x_command-joined_example =
    es10x_command-joined 1 one_atoi (0xbf ∷ []) two_pieces (open_channel one_atoi two_pieces).1
      (ascii "1") (first_piece ∷ last_piece ∷ []) refl (omega arith) (refl, ground arith)
      (first_piece-Carries, (last_piece-Carries, tt)) (omega arith)

-- The card is busy.
abbrev busy_answer : Answer
busy_answer = record {
  bytes = 0xbf ∷ 0x31 ∷ 0x03 ∷ 0x80 ∷ 0x01 ∷ 0x05 ∷ [];
  sw1 = 0x90;
  sw2 = 0x00;
}

busy_answer-Carries : Carries (card_reply busy_answer) busy_answer
busy_answer-Carries = record {
  good = refl;
  number = ascii " 1";
  ends = ascii "\"OK";
  line = refl;
  no_comma = (ground arith, (ground arith, tt));
  no_hex = (refl, (refl, (refl, tt)));
  small = (
    omega arith,
    (
      omega arith,
      (omega arith, (omega arith, (omega arith, (omega arith, (omega arith, (omega arith, tt)))))),
    ),
  );
}

abbrev busy_card : Modem
busy_card = record {
  answers = opened_reply ∷ card_reply busy_answer ∷ good_reply [] ∷ [];
  sent = [];
}

abbrev short_iccid : List ℕ
short_iccid = ascii "8986"

abbrev short_id : List ℕ
short_id = 0x5a ∷ 0x0a ∷ 0x98 ∷ 0x68 ∷ 0xff ∷ 0xff ∷ 0xff ∷ 0xff ∷ 0xff ∷ 0xff ∷ 0xff ∷ 0xff ∷ []

busy_command :
    (es10x_command 1 one_atoi (standard_request 0xbf31 short_id true).req busy_card).0
    ≡ ok (result_answer 0xbf31 5)
unfolding open_channel send parse_channel decimal decimal_digits standard_request refresh_tlv
    result_answer append_tlv append_tag append_length tag_bytes length_bytes
busy_command =
    es10x_command-joined 1 one_atoi (standard_request 0xbf31 short_id true).req busy_card
      (open_channel one_atoi busy_card).1 (ascii "1") (busy_answer ∷ []) refl (omega arith) refl
      (busy_answer-Carries, tt) (omega arith)

esim_manager_switch_profile-result_answer_example :
    esim_manager_switch_profile 1 one_atoi [] short_iccid busy_card ≡ (
      ok (record { code = none; sw = some 0 }),
      (es10x_command 1 one_atoi (standard_request 0xbf31 short_id true).req busy_card).1,
    )
unfolding build_profile_identifier target_aid iccid_to_bcd all_digits bcd_bytes join_nibbles
    append_tlv append_tag append_length tag_bytes length_bytes
esim_manager_switch_profile-result_answer_example =
    esim_manager_switch_profile-result_answer 1 one_atoi [] short_iccid short_id busy_card 5 refl
      busy_command
