-- ===== src/Simulation.antt =====
-- What the `Simulation` classes of runmm.py, runmm2.py, runmm_multi.py and runmmVatic.py share: the
-- choice of a sending mode, and the effects of a run. A run is the list of its effects, in order,
-- with its end: it returns or it raises. Console messages are left out. Started programs and shell
-- commands are effects with no answer.
pub mod Multi
pub mod Single
pub mod Mm2
pub mod Vatic
pub mod Mode
pub mod Effects
pub mod Batch
