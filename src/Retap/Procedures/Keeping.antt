-- ===== src/Retap/Procedures/Keeping.antt =====
-- The procedures of openaisg/retap.py change the state by their requests alone.
use openaisg.Common.{ℕ, Bytes}
use openaisg.Common.Int.{ℤ}
use openaisg.Errors.Rules.{Keeps, Keeps-bind, Keeps-lift}
use openaisg.Retap.Procedures.{
  Transport, Ret, proc, get_information, get_alarm_status, clear_alarms, alarm_subscribe, self_test,
  reset, calibrate, set_tilt, get_tilt, get_device_data,
}

module _ {L : Type 0} {I : L → Type 0} (t : Transport L)
    (h : (addr : ℕ) (message : Bytes) (timeout : ℕ) → Keeps I (t.request addr message timeout))
    (ret : Ret) where
  Keeps-proc :
      (code : ℕ) (payload : Bytes) (timeout : ℕ) → Keeps I (proc t ret code payload timeout)
  unfolding proc
  Keeps-proc code payload timeout =
      Keeps-bind Keeps-lift (λ size. Keeps-bind (h ret.addr _ timeout) (λ resp. Keeps-lift))

  pub Keeps-get_information : Keeps I (get_information t ret)
  unfolding get_information
  Keeps-get_information = Keeps-bind (Keeps-proc _ _ _) (λ d. Keeps-lift)

  pub Keeps-get_alarm_status : Keeps I (get_alarm_status t ret)
  unfolding get_alarm_status
  Keeps-get_alarm_status = Keeps-proc _ _ _

  pub Keeps-clear_alarms : Keeps I (clear_alarms t ret)
  unfolding clear_alarms
  Keeps-clear_alarms = Keeps-proc _ _ _

  pub Keeps-alarm_subscribe : Keeps I (alarm_subscribe t ret)
  unfolding alarm_subscribe
  Keeps-alarm_subscribe = Keeps-proc _ _ _

  pub Keeps-self_test : Keeps I (self_test t ret)
  unfolding self_test
  Keeps-self_test = Keeps-proc _ _ _

  pub Keeps-reset : Keeps I (reset t ret)
  unfolding reset
  Keeps-reset = Keeps-proc _ _ _

  pub Keeps-calibrate : Keeps I (calibrate t ret)
  unfolding calibrate
  Keeps-calibrate = Keeps-proc _ _ _

  pub Keeps-set_tilt : (tenths : ℤ) → Keeps I (set_tilt t ret tenths)
  unfolding set_tilt
  Keeps-set_tilt tenths = Keeps-bind Keeps-lift (λ payload. Keeps-proc _ _ _)

  pub Keeps-get_tilt : Keeps I (get_tilt t ret)
  unfolding get_tilt
  Keeps-get_tilt = Keeps-bind (Keeps-proc _ _ _) (λ d. Keeps-lift)

  pub Keeps-get_device_data : (field : ℕ) → Keeps I (get_device_data t ret field)
  unfolding get_device_data
  Keeps-get_device_data field = Keeps-proc _ _ _
