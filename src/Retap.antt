-- ===== src/Retap.antt =====
-- openaisg/retap.py: the RETAP procedures of a RET device. The link is a state `L` with a request.
pub mod Codec
pub mod Names
pub mod Procedures
