-- ===== src/Channel/Ranking.antt =====
-- RULE 11 of app/services/channel_selector.py: `prioritize_channels` of
-- app/services/_channel_advisory_helpers.py, and the lists of channels that the rules filter. A list of
-- candidates that is not empty is its first channel and the rest.
use student_success_intellig.Prelude.{
  if◌then◌else◌, is_some, ℤ, at_least, when, Bool, true, false, not, ◌&&◌, ◌||◌, Option, none, some,
  List, [], ◌∷◌, ◌++◌, str_eq,
}
use student_success_intellig.Channel.Types.{
  Channel, call, sms, email, Code, engagement_signal_unknown, partial_engagement_assessment,
  ThresholdBindings,
}
use student_success_intellig.Config.{Setting, numeric}

abbrev pub same_channel : Channel → Channel → Bool
same_channel call call = true
same_channel sms sms = true
same_channel email email = true
same_channel _ _ = false

-- `ch in channels`
unfoldable pub has : Channel → List Channel → Bool
has ch [] = false
has ch (c ∷ cs) = same_channel ch c || has ch cs

-- the channels that a test drops, and those that it keeps
unfoldable pub dropped : (Channel → Bool) → List Channel → List Channel
dropped test [] = []
dropped test (c ∷ cs) = when (test c) c ++ dropped test cs

unfoldable pub kept : (Channel → Bool) → List Channel → List Channel
kept test cs = dropped (λ c. not (test c)) cs

-- `channels.remove(ch)`
unfoldable pub remove : Channel → List Channel → List Channel
remove ch [] = []
remove ch (c ∷ cs) = if same_channel ch c then cs else c ∷ remove ch cs

-- candidates: the first and the others
abbrev pub Ranking : Type 0
Ranking = Channel × List Channel

abbrev pub ranked : Ranking → List Channel
ranked (c, cs) = c ∷ cs

-- `ordered.remove(ch); ordered.insert(0, ch)`, where `ch in ordered`
unfoldable pub promote : Channel → Ranking → Ranking
promote ch (c, cs) = if same_channel ch c then (c, cs) else (ch, c ∷ remove ch cs)

-- `score >= th` of a score and a threshold that are known
abbrev pub reaches : Option ℤ → Setting → Bool
reaches score v = at_least score (numeric v)

-- the channel whose engagement threshold is reached first
unfoldable pub engaged : Option ℤ → ThresholdBindings → List Channel → Option Channel
engaged score tb channels =
    if reaches score tb.call_engagement_score_threshold && has call channels
    then some call
    else if reaches score tb.sms_engagement_score_threshold && has sms channels
    then some sms
    else if reaches score tb.email_engagement_score_threshold && has email channels
    then some email
    else none

-- `_t(tb.preferred_initial_channel)`, where it names a channel
unfoldable pub configured : Setting → Option Channel
configured (Setting.other text) =
    if str_eq text "CALL"
    then some call
    else if str_eq text "SMS"
    then some sms
    else if str_eq text "EMAIL"
    then some email
    else none
configured _ = none

-- the promotion of a channel that is among the candidates
unfoldable pub promote_if : Option Channel → Ranking → Ranking
promote_if none r = r
promote_if (some ch) r = if has ch (ranked r) then promote ch r else r

abbrev pub ranking_codes : Option ℤ → ThresholdBindings → List Code
ranking_codes score tb =
    when (not (is_some score)) engagement_signal_unknown
    ++ when
        (not (is_some (numeric tb.call_engagement_score_threshold))
          && (not (is_some (numeric tb.sms_engagement_score_threshold))
              && not (is_some (numeric tb.email_engagement_score_threshold))))
        partial_engagement_assessment

-- the engaged channel first; without one, the configured channel first
unfoldable pub prioritized : Option Channel → Option Channel → Ranking → Ranking × Bool
prioritized (some ch) preference r = (promote ch r, true)
prioritized none preference r = (promote_if preference r, false)

-- `prioritize_channels`: the candidates, and whether a signal prefers the first
unfoldable pub prioritize_channels : Ranking → Option ℤ → ThresholdBindings → Ranking × Bool
prioritize_channels r score tb =
    prioritized (engaged score tb (ranked r)) (configured tb.preferred_initial_channel) r
